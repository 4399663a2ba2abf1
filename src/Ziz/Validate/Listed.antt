-- ===== src/Ziz/Validate/Listed.antt =====
-- The list of the duplicate ids that `ValidateArticles` keeps, by how often the articles have them.
use web_scraper.Base.{
  Empty, ◌⊎◌, Among, ℕ, suc, ◌+◌, ◌-◌, ◌≤◌, min, ◌≡◌, refl, ◌∙◌, inl, inr, Bool, true, false, List,
  [], ◌∷◌, ◌++◌, length, length-append, if◌then◌else◌, arith, Bool-cases, count_where,
  insertion_sort, ltb,
}
use web_scraper.Base.Int.{ℤ, int_eq, int_eq_iff}
use web_scraper.Base.Ordered.{count_where-insertion_sort}
use web_scraper.Ziz.Types.{Article}

abbrev pub has_source : ℤ → Article → Bool
has_source z a = int_eq a.source_id z

-- The elements of the lists that a function picks from the articles.
abbrev pub Gathered : {A : Type 0} → (Article → List A) → List Article → A → Type 0
Gathered pick [] z = Empty
Gathered pick (a ∷ xs) z = Among z (pick a) ⊎ Gathered pick xs z

abbrev pub id_of : Article → List ℤ
id_of a = a.source_id ∷ []

pub known→counted :
    (n : ℤ) (xs : List Article) → Gathered id_of xs n → 1 ≤ count_where (has_source n) xs
unfolding count_where
known→counted n [] k = elim k [ ]
known→counted n (a ∷ xs) (inl (inl e)) = rw ((int_eq_iff a.source_id n).1 e) (omega arith)
known→counted n (a ∷ xs) (inl (inr k)) = elim k [ ]
known→counted n (a ∷ xs) (inr k) = ground (arith, known→counted n xs k)

pub unknown→none :
    (n : ℤ) (xs : List Article) → ¬ Gathered id_of xs n → count_where (has_source n) xs ≡ 0
unfolding count_where
unknown→none n [] k = refl
unknown→none n (a ∷ xs) k = elim (Bool-cases (has_source n a)) [
  | inl e ↦ absurd (k (inl (inl ((int_eq_iff a.source_id n).0 e))))
  | inr e ↦ rw e (omega (arith, unknown→none n xs (λ g. k (inr g))))
]

abbrev is_id : ℤ → ℤ → Bool
is_id z y = int_eq y z

-- How often an id may be listed: once for each article that has it but one.
abbrev pub repeats : ℤ → List Article → ℕ
repeats z xs = count_where (has_source z) xs - 1

-- No id is listed more often than it repeats, and each as often as it repeats if there are at most
-- 100 duplicates; of more duplicates 100 are listed.
pub record IsListed (xs : List Article) (duplicates : ℕ) (ids : List ℤ) : Type 0 where
  pub kept : length ids ≡ min duplicates 100
  pub within : (z : ℤ) → count_where (λ y. int_eq y z) ids ≤ repeats z xs
  pub all : duplicates ≤ 100 → (z : ℤ) → count_where (λ y. int_eq y z) ids ≡ repeats z xs

repeats_new :
    (a : Article) (xs : List Article) (z : ℤ)
    → count_where (has_source a.source_id) xs ≡ 0
    → repeats z (a ∷ xs) ≡ repeats z xs
unfolding count_where
repeats_new a xs z u = elim (Bool-cases (int_eq a.source_id z)) [
  | inl e ↦ rw e (omega (arith, rw ((int_eq_iff a.source_id z).0 e) at u))
  | inr e ↦ rw e (omega arith)
]

-- An article with a new id lists nothing.
pub new-IsListed :
    (a : Article) (xs : List Article) (d : ℕ) (ids : List ℤ)
    → count_where (has_source a.source_id) xs ≡ 0
    → IsListed xs d ids
    → IsListed (a ∷ xs) d ids
new-IsListed a xs d ids u h = record {
  kept = h.kept;
  within = λ z. rw (repeats_new a xs z u) (h.within z);
  all = λ l z. rw (repeats_new a xs z u) (h.all l z);
}

abbrev once : Bool → ℕ
once true = 1
once false = 0

repeats_known :
    (a : Article) (xs : List Article) (z : ℤ)
    → 1 ≤ count_where (has_source a.source_id) xs
    → repeats z (a ∷ xs) ≡ repeats z xs + once (int_eq a.source_id z)
unfolding count_where
repeats_known a xs z u = elim (Bool-cases (int_eq a.source_id z)) [
  | inl e ↦ rw e (omega (arith, rw ((int_eq_iff a.source_id z).0 e) at u))
  | inr e ↦ rw e (omega arith)
]

count_where-append_one :
    (p : ℤ → Bool) (ids : List ℤ) (n : ℤ)
    → count_where p (ids ++ n ∷ []) ≡ count_where p ids + once (p n)
unfolding count_where
count_where-append_one p [] n = elim (Bool-cases (p n)) [ inl e ↦ rw e refl | inr e ↦ rw e refl ]
count_where-append_one p (m ∷ ids) n = elim (Bool-cases (p m)) [
  | inl e ↦ rw e (omega (arith, count_where-append_one p ids n))
  | inr e ↦ rw e (omega (arith, count_where-append_one p ids n))
]

-- An article with an id that is known lists it, while there is room.
pub repeat-IsListed :
    (a : Article) (xs : List Article) (d : ℕ) (ids : List ℤ)
    → 1 ≤ count_where (has_source a.source_id) xs
    → IsListed xs d ids
    → IsListed (a ∷ xs) (suc d) (if ltb (length ids) 100 then ids ++ a.source_id ∷ [] else ids)
repeat-IsListed a xs d ids u h = elim (Bool-cases (ltb (length ids) 100)) [
  | inl e ↦ rw e (record {
    kept = ground (arith, length-append ids (a.source_id ∷ []), h.kept);
    within = λ z.
        rw (repeats_known a xs z u, count_where-append_one (is_id z) ids a.source_id)
          (omega (arith, h.within z));
    all = λ l z.
        rw (repeats_known a xs z u, count_where-append_one (is_id z) ids a.source_id)
          (omega (arith, h.all (omega (arith, l)) z));
  })
  | inr e ↦ rw e (record {
    kept = ground (arith, h.kept);
    within = λ z. rw (repeats_known a xs z u) (omega (arith, h.within z));
    all = λ l z. absurd (ground (arith, h.kept, l));
  })
]

-- The order of the list does not matter.
pub sorted-IsListed :
    (le : ℤ → ℤ → Bool) (xs : List Article) (d : ℕ) (ids : List ℤ)
    → length (insertion_sort le ids) ≡ length ids
    → IsListed xs d ids
    → IsListed xs d (insertion_sort le ids)
sorted-IsListed le xs d ids same h = record {
  kept = same ∙ h.kept;
  within = λ z. rw (count_where-insertion_sort le (is_id z) ids) (h.within z);
  all = λ l z. rw (count_where-insertion_sort le (is_id z) ids) (h.all l z);
}
