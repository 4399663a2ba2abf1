-- ===== src/Base/Ordered.antt =====
-- Sorting with ties: nothing is lost.
use web_scraper.Base.{
  suc, length, ◌≡◌, refl, ◌∙◌, inl, inr, Bool, List, [], ◌∷◌, Bool-cases, insert_by, insertion_sort,
  count_where, arith,
}

module _ {A : Type 0} where
  count_where-insert_by :
      (le : A → A → Bool) (p : A → Bool) (a : A) (xs : List A)
      → count_where p (insert_by le a xs) ≡ count_where p (a ∷ xs)
  unfolding count_where insert_by
  count_where-insert_by le p a [] = refl
  count_where-insert_by le p a (x ∷ xs) = elim (Bool-cases (le a x)) [
    | inl e ↦ rw e refl
    | inr e ↦ rw e (omega (arith, count_where-insert_by le p a xs))
  ]

  -- Every test counts as many after the sort as before.
  pub count_where-insertion_sort :
      (le : A → A → Bool) (p : A → Bool) (xs : List A)
      → count_where p (insertion_sort le xs) ≡ count_where p xs
  unfolding count_where insertion_sort
  count_where-insertion_sort le p [] = refl
  count_where-insertion_sort le p (x ∷ xs) =
      count_where-insert_by le p x (insertion_sort le xs)
      ∙ omega (arith, count_where-insertion_sort le p xs)

length-insert_by :
    {A : Type 0} (le : A → A → Bool) (a : A) (xs : List A)
    → length (insert_by le a xs) ≡ suc (length xs)
unfolding insert_by
length-insert_by le a [] = refl
length-insert_by le a (x ∷ xs) = ground (arith, length-insert_by le a xs)

pub length-insertion_sort :
    {A : Type 0} (le : A → A → Bool) (xs : List A) → length (insertion_sort le xs) ≡ length xs
unfolding insertion_sort
length-insertion_sort le [] = refl
length-insertion_sort le (x ∷ xs) =
    length-insert_by le x (insertion_sort le xs) ∙ omega (arith, length-insertion_sort le xs)
