-- ===== src/Base/Sorted.antt =====
-- Sorted lists, by a test that is a total order.
use web_scraper.Base.{
  ◌≡◌, ◌≢◌, refl, sym, ◌∙◌, subst, ◌↔◌, inl, inr, Bool, true, false, List, [], ◌∷◌, All, Among,
  Distinct, All-Among, All-of_Among, Bool-cases, insert_by, insertion_sort,
}

pub record IsTotalOrder {A : Type 0} (le : A → A → Bool) : Type 0 where
  pub total : (a b : A) → le a b ≡ false → le b a ≡ true
  pub trans : (a b c : A) → le a b ≡ true → le b c ≡ true → le a c ≡ true
  pub antisymm : (a b : A) → le a b ≡ true → le b a ≡ true → a ≡ b

module _ {A : Type 0} (le : A → A → Bool) where
  -- `insert_by` is a section's function of the lists
  insert_by_first : (a x : A) (xs : List A) → le a x ≡ true → insert_by le a (x ∷ xs) ≡ a ∷ x ∷ xs
  unfolding insert_by
  insert_by_first a x xs e = rw e

  insert_by_later :
      (a x : A) (xs : List A) → le a x ≡ false → insert_by le a (x ∷ xs) ≡ x ∷ insert_by le a xs
  unfolding insert_by
  insert_by_later a x xs e = rw e

  -- Each element is at most every later one, and different from it.
  abbrev pub IsAscending : List A → Type 0
  IsAscending [] = Unit
  IsAscending (x ∷ xs) = All (λ y. (le x y ≡ true) × (x ≢ y)) xs × IsAscending xs

  Among-insert_by : (a : A) (xs : List A) (b : A) → Among b (insert_by le a xs) ↔ Among b (a ∷ xs)
  Among-insert_by a [] b = unfold insert_by in (λ m. m, λ m. m)
  Among-insert_by a (x ∷ xs) b = elim (Bool-cases (le a x)) [
    | inl e ↦ rw (insert_by_first a x xs e) (λ m. m, λ m. m)
    | inr e ↦ rw (insert_by_later a x xs e) (
      λ m. elim m [
        | inl h ↦ inr (inl h)
        | inr k ↦ elim ((Among-insert_by a xs b).0 k) [ inl h ↦ inl h | inr n ↦ inr (inr n) ]
      ],
      λ m. elim m [
        | inl h ↦ inr ((Among-insert_by a xs b).1 (inl h))
        | inr k ↦ elim k [ inl h ↦ inl h | inr n ↦ inr ((Among-insert_by a xs b).1 (inr n)) ]
      ],
    )
  ]

  pub Among-insertion_sort : (xs : List A) (b : A) → Among b (insertion_sort le xs) ↔ Among b xs
  unfolding insertion_sort
  Among-insertion_sort [] b = (λ m. m, λ m. m)
  Among-insertion_sort (x ∷ xs) b =
      let (to, from) = Among-insert_by x (insertion_sort le xs) b in
      let (to', from') = Among-insertion_sort xs b in
      (
        λ m. elim (to m) [ inl h ↦ inl h | inr k ↦ inr (to' k) ],
        λ m. from (elim m [ inl h ↦ inl h | inr k ↦ inr (from' k) ]),
      )

  module _ (order : IsTotalOrder le) where
    insert_by-IsAscending :
        (a : A) (xs : List A)
        → ((x : A) → Among x xs → x ≢ a)
        → IsAscending xs
        → IsAscending (insert_by le a xs)
    insert_by-IsAscending a [] n s = unfold insert_by in (tt, tt)
    insert_by-IsAscending a (x ∷ xs) n (below, s) = elim (Bool-cases (le a x)) [
      | inl e ↦ rw (insert_by_first a x xs e) (
        (
          (e, λ h. n x (inl refl) (sym h)),
          All-of_Among _ xs
              λ y m. (order.trans a x y e (All-Among _ xs below m).0, λ h. n y (inr m) (sym h)),
        ),
        (below, s),
      )
      | inr e ↦ rw (insert_by_later a x xs e) (
        All-of_Among _ (insert_by le a xs) (λ y m. elim ((Among-insert_by a xs y).0 m) [
          | inl h ↦
              subst (λ (z : A). (le x z ≡ true) × (x ≢ z)) h (order.total a x e, n x (inl refl))
          | inr k ↦ All-Among _ xs below k
        ]),
        insert_by-IsAscending a xs (λ y m. n y (inr m)) s,
      )
    ]

    pub insertion_sort-IsAscending :
        (xs : List A) → Distinct (λ x. x) xs → IsAscending (insertion_sort le xs)
    unfolding insertion_sort
    insertion_sort-IsAscending [] d = tt
    insertion_sort-IsAscending (x ∷ xs) (apart, d) =
        insert_by-IsAscending x (insertion_sort le xs)
          (λ y m. All-Among _ xs apart ((Among-insertion_sort xs y).0 m))
          (insertion_sort-IsAscending xs d)

    -- two heads that bound each other's lists are equal
    heads_eq :
        (x y : A) (xs ys : List A)
        → IsAscending (x ∷ xs)
        → IsAscending (y ∷ ys)
        → Among y (x ∷ xs)
        → Among x (y ∷ ys)
        → x ≡ y
    heads_eq x y xs ys s t (inl e) m = e
    heads_eq x y xs ys s t (inr n) (inl e) = sym e
    heads_eq x y xs ys (below, _) (above, _) (inr n) (inr m) =
        order.antisymm x y (All-Among _ xs below n).0 (All-Among _ ys above m).0

    tail-Among :
        (x y z : A) (xs ys : List A)
        → IsAscending (x ∷ xs)
        → x ≡ y
        → Among z xs
        → Among z (y ∷ ys)
        → Among z ys
    tail-Among x y z xs ys (below, _) e m (inl h) = absurd ((All-Among _ xs below m).1 (e ∙ h))
    tail-Among x y z xs ys s e m (inr n) = n

    -- An ascending list is determined by its elements.
    pub IsAscending-eq :
        (xs ys : List A)
        → IsAscending xs
        → IsAscending ys
        → ((z : A) → Among z xs ↔ Among z ys)
        → xs ≡ ys
    IsAscending-eq [] [] s t h = refl
    IsAscending-eq [] (y ∷ ys) s t h = elim ((h y).1 (inl refl)) [ ]
    IsAscending-eq (x ∷ xs) [] s t h = elim ((h x).0 (inl refl)) [ ]
    IsAscending-eq (x ∷ xs) (y ∷ ys) s t h =
        let e : x ≡ y = heads_eq x y xs ys s t ((h y).1 (inl refl)) ((h x).0 (inl refl)) in
        let tails : xs ≡ ys = IsAscending-eq xs ys s.1 t.1 (λ z. (
          λ m. tail-Among x y z xs ys s e m ((h z).0 (inr m)),
          λ m. tail-Among y x z ys xs t (sym e) m ((h z).1 (inr m)),
        )) in
        cc
