-- ===== src/Base/Rows.antt =====
-- Lemmas on tables: members, distinct keys, and the rows that a statement picks, changes or leaves.
use mathlib.Core.Path.{◌≡◌, refl, sym, ◌∙◌, ap, subst}
use mathlib.Core.Logic.{◌⊎◌, ◌≢◌, inl, inr}
use mathlib.Core.Bool.{Bool, true, false}
use mathlib.Core.List.{List, [], ◌∷◌, ◌++◌}
use mathlib.Core.Option.{none, some}
use native.Mathlib.Omega.{arith}
use web_scraper.Base.Tests.{Bool-cases, Option-cases}
use web_scraper.Base.Lists.{
  find_where-none, All, All-append, Among, Distinct, find_where, update_where, count_where,
  select_where,
}

module _ {ℓ} {A : Type ℓ} where
  pub All-Among {κ} : (P : A → Type κ) (xs : List A) {a : A} → All P xs → Among a xs → P a
  All-Among P [] h m = elim m [ ]
  All-Among P (x ∷ xs) h (inl e) = subst P e h.0
  All-Among P (x ∷ xs) h (inr m) = All-Among P xs h.1 m

  pub All-of_Among {κ} : (P : A → Type κ) (xs : List A) → ((x : A) → Among x xs → P x) → All P xs
  All-of_Among P [] h = tt
  All-of_Among P (x ∷ xs) h = (h x (inl refl), All-of_Among P xs (λ y m. h y (inr m)))

  -- Nothing is found only where the test fails on every element.
  pub find_where-absent :
      (p : A → Bool) (xs : List A) → find_where p xs ≡ none → (a : A) → Among a xs → p a ≡ false
  unfolding find_where
  find_where-absent p [] h a m = elim m [ ]
  find_where-absent p (x ∷ xs) h a (inl e) = rw (← e) (ground arith)
  find_where-absent p (x ∷ xs) h a (inr m) = find_where-absent p xs (ground arith) a m

  pub find_where-none_of :
      (p : A → Bool) (xs : List A) → ((x : A) → Among x xs → p x ≡ false) → find_where p xs ≡ none
  unfolding find_where
  find_where-none_of p [] h = refl
  find_where-none_of p (x ∷ xs) h =
      rw (h x (inl refl)) (find_where-none_of p xs (λ y m. h y (inr m)))

  pub find_where-append :
      (p : A → Bool) (xs ys : List A)
      → find_where p xs ≡ none
      → find_where p (xs ++ ys) ≡ find_where p ys
  unfolding find_where
  find_where-append p [] ys h = refl
  find_where-append p (x ∷ xs) ys h = ground (arith, find_where-append p xs ys)

  -- What is found is one of the elements, and passes the test.
  pub find_where-Among :
      (p : A → Bool) (xs : List A) (a : A) → find_where p xs ≡ some a → Among a xs × (p a ≡ true)
  unfolding find_where
  find_where-Among p [] a h = cc
  find_where-Among p (x ∷ xs) a h = elim (Bool-cases (p x)) [
    | inl e ↦ let q : x ≡ a = unsome (rw e at h) in (inl q, rw (← q) e)
    | inr e ↦ let (m, t) = find_where-Among p xs a (rw e at h) in (inr m, t)
  ]
    where
      unsome : some x ≡ some a → x ≡ a
      unsome q = cc

  pub count_where-none_of :
      (p : A → Bool) (xs : List A) → count_where p xs ≡ 0 → (a : A) → Among a xs → p a ≡ false
  unfolding count_where
  count_where-none_of p [] h a m = elim m [ ]
  count_where-none_of p (x ∷ xs) h a (inl e) = rw (← e) (ground arith)
  count_where-none_of p (x ∷ xs) h a (inr m) = count_where-none_of p xs (ground arith) a m

  -- Where something is counted, there is an element that passes the test.
  pub count_where_pos :
      (p : A → Bool) (xs : List A) → count_where p xs ≢ 0 → (a : A) × Among a xs × (p a ≡ true)
  unfolding count_where
  count_where_pos p [] h = absurd (h refl)
  count_where_pos p (x ∷ xs) h = elim (Bool-cases (p x)) [
    | inl e ↦ (x, inl refl, e)
    | inr e ↦ let (a, m, t) = count_where_pos p xs (λ z. h (rw e (rw z refl))) in (a, inr m, t)
  ]

  pub select_where-append :
      (p : A → Bool) (xs ys : List A)
      → select_where p (xs ++ ys) ≡ select_where p xs ++ select_where p ys
  unfolding select_where
  select_where-append p [] ys = refl
  select_where-append p (x ∷ xs) ys = ground (arith, select_where-append p xs ys)

  pub select_where-Among :
      (p : A → Bool) (xs : List A) (a : A) → Among a xs → p a ≡ true → Among a (select_where p xs)
  unfolding select_where
  select_where-Among p [] a m h = elim m [ ]
  select_where-Among p (x ∷ xs) a (inl e) h = rw (e, h) (inl refl)
  select_where-Among p (x ∷ xs) a (inr m) h = elim (Bool-cases (p x)) [
    | inl e ↦ rw e (inr (select_where-Among p xs a m h))
    | inr e ↦ rw e (select_where-Among p xs a m h)
  ]

  pub Among-select_where :
      (p : A → Bool) (xs : List A) (a : A) → Among a (select_where p xs) → Among a xs × (p a ≡ true)
  unfolding select_where
  Among-select_where p [] a m = elim m [ ]
  Among-select_where p (x ∷ xs) a m = elim (Bool-cases (p x)) [
    | inl e ↦ elim (rw e at m) [
      | inl q ↦ (inl q, rw (← q) e)
      | inr n ↦ let (k, t) = Among-select_where p xs a n in (inr k, t)
    ]
    | inr e ↦ let (k, t) = Among-select_where p xs a (rw e at m) in (inr k, t)
  ]

  pub Among-append_right : (xs : List A) (a : A) → Among a (xs ++ a ∷ [])
  Among-append_right [] a = inl refl
  Among-append_right (x ∷ xs) a = inr (Among-append_right xs a)

  pub Among-append_inv : (xs ys : List A) (a : A) → Among a (xs ++ ys) → Among a xs ⊎ Among a ys
  Among-append_inv [] ys a m = inr m
  Among-append_inv (x ∷ xs) ys a (inl e) = inl (inl e)
  Among-append_inv (x ∷ xs) ys a (inr m) = elim (Among-append_inv xs ys a m) [
    | inl n ↦ inl (inr n)
    | inr n ↦ inr n
  ]

-- One lemma for each fact about rows with distinct keys.
module _ {ℓ} {A : Type ℓ} {K : Type 0} (key : A → K) where
  -- A key finds one row only.
  pub Among-unique :
      (xs : List A) (a b : A) → Distinct key xs → Among a xs → Among b xs → key a ≡ key b → a ≡ b
  Among-unique [] a b d m n e = elim m [ ]
  Among-unique (x ∷ xs) a b d (inl p) (inl q) e = sym p ∙ q
  Among-unique (x ∷ xs) a b d (inl p) (inr n) e =
      absurd (All-Among (λ y. key y ≢ key x) xs d.0 n (sym e ∙ ap key (sym p)))
  Among-unique (x ∷ xs) a b d (inr m) (inl q) e =
      absurd (All-Among (λ y. key y ≢ key x) xs d.0 m (e ∙ ap key (sym q)))
  Among-unique (x ∷ xs) a b d (inr m) (inr n) e = Among-unique xs a b d.1 m n e

  -- An update that leaves the keys alone keeps them distinct.
  All-key-update_where :
      (k : K) (p : A → Bool) (f : A → A) (xs : List A)
      → ((x : A) → Among x xs → p x ≡ true → key (f x) ≡ key x)
      → All (λ y. key y ≢ k) xs
      → All (λ y. key y ≢ k) (update_where p f xs)
  unfolding update_where
  All-key-update_where k p f [] s h = tt
  All-key-update_where k p f (x ∷ xs) s h = (
    elim (Bool-cases (p x)) [ inl e ↦ rw e (rw (s x (inl refl) e) h.0) | inr e ↦ rw e h.0 ],
    All-key-update_where k p f xs (λ y m. s y (inr m)) h.1,
  )

  pub Distinct-update_where :
      (p : A → Bool) (f : A → A) (xs : List A)
      → ((x : A) → Among x xs → p x ≡ true → key (f x) ≡ key x)
      → Distinct key xs
      → Distinct key (update_where p f xs)
  unfolding update_where
  Distinct-update_where p f [] s d = tt
  Distinct-update_where p f (x ∷ xs) s d = (
    elim (Bool-cases (p x)) [
      | inl e ↦ rw e (rw (s x (inl refl) e) (tail_keys d.0))
      | inr e ↦ rw e (tail_keys d.0)
    ],
    Distinct-update_where p f xs (λ y m. s y (inr m)) d.1,
  )
    where
      tail_keys : All (λ y. key y ≢ key x) xs → All (λ y. key y ≢ key x) (update_where p f xs)
      tail_keys = All-key-update_where (key x) p f xs (λ y m. s y (inr m))

  pub Distinct-append_one :
      (xs : List A) (a : A)
      → All (λ y. key y ≢ key a) xs
      → Distinct key xs
      → Distinct key (xs ++ a ∷ [])
  Distinct-append_one [] a h d = (tt, tt)
  Distinct-append_one (x ∷ xs) a h d = (
    All-append (λ y. key y ≢ key x) xs (a ∷ []) d.0 (λ e. h.0 (sym e), tt),
    Distinct-append_one xs a h.1 d.1,
  )

module _ {ℓ} {A : Type ℓ} where
  -- An update keeps the elements that its test does not pick.
  pub Among-update_where :
      (p : A → Bool) (f : A → A) (xs : List A) (a : A)
      → p a ≡ false
      → Among a xs
      → Among a (update_where p f xs)
  unfolding update_where
  Among-update_where p f [] a h m = elim m [ ]
  Among-update_where p f (x ∷ xs) a h (inl e) = inl (rw e (rw h))
  Among-update_where p f (x ∷ xs) a h (inr m) = inr (Among-update_where p f xs a h m)

  pub Among-update_where_picked :
      (p : A → Bool) (f : A → A) (xs : List A) (a : A)
      → p a ≡ true
      → Among a xs
      → Among (f a) (update_where p f xs)
  unfolding update_where
  Among-update_where_picked p f [] a h m = elim m [ ]
  Among-update_where_picked p f (x ∷ xs) a h (inl e) = inl (rw e (rw h))
  Among-update_where_picked p f (x ∷ xs) a h (inr m) = inr (Among-update_where_picked p f xs a h m)

  -- An element after an update is one that was picked and changed, or one that was not picked.
  pub Among-update_where_inv :
      (p : A → Bool) (f : A → A) (xs : List A) (b : A)
      → Among b (update_where p f xs)
      → (a : A) × Among a xs × (((p a ≡ true) × (b ≡ f a)) ⊎ ((p a ≡ false) × (b ≡ a)))
  unfolding update_where
  Among-update_where_inv p f [] b m = elim m [ ]
  Among-update_where_inv p f (x ∷ xs) b (inl e) = elim (Bool-cases (p x)) [
    | inl t ↦ (x, inl refl, inl (t, sym (rw t at e)))
    | inr t ↦ (x, inl refl, inr (t, sym (rw t at e)))
  ]
  Among-update_where_inv p f (x ∷ xs) b (inr m) =
      let (a, n, c) = Among-update_where_inv p f xs b m in (a, inr n, c)

  -- Nothing is counted where the test fails on every element.
  pub count_where-zero :
      (p : A → Bool) (xs : List A) → ((x : A) → Among x xs → p x ≡ false) → count_where p xs ≡ 0
  unfolding count_where
  count_where-zero p [] h = refl
  count_where-zero p (x ∷ xs) h =
      ground (arith, h x (inl refl), count_where-zero p xs (λ y m. h y (inr m)))

  pub Among-append : (xs ys : List A) (a : A) → Among a xs → Among a (xs ++ ys)
  Among-append [] ys a m = elim m [ ]
  Among-append (x ∷ xs) ys a (inl e) = inl e
  Among-append (x ∷ xs) ys a (inr m) = inr (Among-append xs ys a m)

-- One row with the key of a test is found and counted once.
module _ {ℓ} {A : Type ℓ} {K : Type 0} (key : A → K) (p : A → Bool) where
  pub find_where_unique :
      (xs : List A) (a : A)
      → Distinct key xs
      → Among a xs
      → p a ≡ true
      → ((x : A) → p x ≡ true → key x ≡ key a)
      → find_where p xs ≡ some a
  find_where_unique xs a d m t same = elim (Option-cases (find_where p xs)) [
    | inl e ↦ absurd (cc (t, count_where-none_of p xs (find_where-none p xs e) a m))
    | inr (b, e) ↦
        let (n, u) = find_where-Among p xs b e in
        e ∙ ap some (Among-unique key xs b a d n m (same b u))
  ]

  pub count_where_unique :
      (xs : List A) (a : A)
      → Distinct key xs
      → Among a xs
      → p a ≡ true
      → ((x : A) → p x ≡ true → key x ≡ key a)
      → count_where p xs ≡ 1
  unfolding count_where
  count_where_unique [] a d m t same = elim m [ ]
  count_where_unique (x ∷ xs) a d (inl e) t same =
      let none_else : count_where p xs ≡ 0 = count_where-zero p xs λ y m. elim (Bool-cases (p y)) [
        | inr f ↦ f
        | inl f ↦ absurd (All-Among (λ y. key y ≢ key x) xs d.0 m (same y f ∙ ap key (sym e)))
      ] in
      rw (e, t) (omega (arith, none_else))
  count_where_unique (x ∷ xs) a d (inr m) t same = elim (Bool-cases (p x)) [
    | inr f ↦ rw f (omega (arith, count_where_unique xs a d.1 m t same))
    | inl f ↦ absurd (All-Among (λ y. key y ≢ key x) xs d.0 m (sym (same x f)))
  ]
