-- ===== src/Ziz/Types/Unique.antt =====
-- `uniqueSorted`.
use web_scraper.Base.{
  ◌≡◌, refl, sym, ◌∙◌, subst, ◌⊎◌, ◌↔◌, inl, inr, true, false, ◌||◌, List, [], ◌∷◌, ◌++◌, Among,
  Distinct, Among-append, Among-append_right, Among-append_inv, Distinct-append_one, All-of_Among,
  Bool-cases, if◌then◌else◌, arith, Text, text_eq, text_eq_iff, is_empty,
}
use mathlib.Core.Bool.{false≢true}
use web_scraper.Base.Sorted.{
  IsTotalOrder, IsAscending, Among-insertion_sort, insertion_sort-IsAscending, IsAscending-eq,
}
use web_scraper.Go.Strings.{text_le}
use web_scraper.Ziz.Types.{is_seen, unique_from, unique_sorted}

text_le_total : (a b : Text) → text_le a b ≡ false → text_le b a ≡ true
unfolding text_le
text_le_total [] b h = cc
text_le_total (a ∷ s) [] h = refl
text_le_total (a ∷ s) (b ∷ t) h = ground (arith, text_le_total s t)

text_le_trans : (a b c : Text) → text_le a b ≡ true → text_le b c ≡ true → text_le a c ≡ true
unfolding text_le
text_le_trans [] b c h k = refl
text_le_trans (a ∷ s) [] c h k = cc
text_le_trans (a ∷ s) (b ∷ t) [] h k = cc
text_le_trans (a ∷ s) (b ∷ t) (c ∷ u) h k = ground (arith, text_le_trans s t u)

text_le_antisymm : (a b : Text) → text_le a b ≡ true → text_le b a ≡ true → a ≡ b
unfolding text_le
text_le_antisymm [] [] h k = refl
text_le_antisymm [] (b ∷ t) h k = cc
text_le_antisymm (a ∷ s) [] h k = cc
text_le_antisymm (a ∷ s) (b ∷ t) h k = ground (arith, text_le_antisymm s t)

-- The order of sort.Strings.
text_le-IsTotalOrder : IsTotalOrder text_le
text_le-IsTotalOrder = record {
  total = text_le_total;
  trans = text_le_trans;
  antisymm = text_le_antisymm;
}

pub is_seen-Among : (v : Text) (xs : List Text) → is_seen v xs ≡ true → Among v xs
unfolding is_seen
is_seen-Among v [] h = cc
is_seen-Among v (x ∷ xs) h = elim (Bool-cases (text_eq x v)) [
  | inl e ↦ inl ((text_eq_iff x v).0 e)
  | inr e ↦ inr (is_seen-Among v xs (rw e at h))
]

pub Among-is_seen : (v : Text) (xs : List Text) → Among v xs → is_seen v xs ≡ true
unfolding is_seen
Among-is_seen v [] m = elim m [ ]
Among-is_seen v (x ∷ xs) (inl e) = rw ((text_eq_iff x v).1 e) refl
Among-is_seen v (x ∷ xs) (inr m) = ground (arith, Among-is_seen v xs m)

-- one round of the loop
push : Text → List Text → List Text
push v out = if is_empty v || is_seen v out then out else out ++ v ∷ []

push-Distinct :
    (v : Text) (out : List Text) → Distinct (λ x. x) out → Distinct (λ x. x) (push v out)
unfolding push
push-Distinct v out d = elim (Bool-cases (is_empty v || is_seen v out)) [
  | inl e ↦ rw e d
  | inr e ↦ rw e (
      Distinct-append_one (λ x. x) out v
        (All-of_Among _ out λ y m q.
          false≢true (
            sym (seen_false v out e) ∙ Among-is_seen v out (subst (λ (z : Text). Among z out) q m)))
        d)
]
  where
    seen_false :
        (v : Text) (out : List Text) → (is_empty v || is_seen v out) ≡ false → is_seen v out ≡ false
    seen_false v out h = ground arith

-- what a round adds
Adds : Text → List Text → Text → Type 0
Adds v out z = Among z out ⊎ ((v ≡ z) × (is_empty z ≡ false))

Among-push : (v : Text) (out : List Text) (z : Text) → Among z (push v out) → Adds v out z
unfolding push Adds
Among-push v out z m = elim (Bool-cases (is_empty v)) [
  | inl e ↦ inl (rw e at m)
  | inr e ↦ elim (Bool-cases (is_seen v out)) [
    | inl k ↦ inl (rw k at (rw e at m))
    | inr k ↦ elim (Among-append_inv out (v ∷ []) z (rw k at (rw e at m))) [
      | inl n ↦ inl n
      | inr (inl h) ↦ inr (h, rw (← h) e)
      | inr (inr n) ↦ elim n [ ]
    ]
  ]
]

push_keeps : (v : Text) (out : List Text) (z : Text) → Among z out → Among z (push v out)
unfolding push
push_keeps v out z m = elim (Bool-cases (is_empty v || is_seen v out)) [
  | inl e ↦ rw e m
  | inr e ↦ rw e (Among-append out (v ∷ []) z m)
]

push_adds : (v : Text) (out : List Text) → is_empty v ≡ false → Among v (push v out)
unfolding push
push_adds v out e = elim (Bool-cases (is_seen v out)) [
  | inl k ↦ rw (e, k) (is_seen-Among v out k)
  | inr k ↦ rw (e, k) (Among-append_right out v)
]

unique_from-Distinct :
    (vs out : List Text) → Distinct (λ x. x) out → Distinct (λ x. x) (unique_from out vs)
unfolding unique_from push
unique_from-Distinct [] out d = d
unique_from-Distinct (v ∷ vs) out d = unique_from-Distinct vs (push v out) (push-Distinct v out d)

Among-unique_from :
    (vs out : List Text) (z : Text)
    → Among z (unique_from out vs)
    → Among z out ⊎ (Among z vs × (is_empty z ≡ false))
unfolding unique_from push Adds
Among-unique_from [] out z m = inl m
Among-unique_from (v ∷ vs) out z m = elim (Among-unique_from vs (push v out) z m) [
  | inl n ↦ elim (Among-push v out z n) [ inl k ↦ inl k | inr (h, e) ↦ inr (inl h, e) ]
  | inr (n, e) ↦ inr (inr n, e)
]

unique_from_keeps : (vs out : List Text) (z : Text) → Among z out → Among z (unique_from out vs)
unfolding unique_from push
unique_from_keeps [] out z m = m
unique_from_keeps (v ∷ vs) out z m = unique_from_keeps vs (push v out) z (push_keeps v out z m)

unique_from_adds :
    (vs out : List Text) (z : Text) → Among z vs → is_empty z ≡ false → Among z (unique_from out vs)
unfolding unique_from push
unique_from_adds [] out z m e = elim m [ ]
unique_from_adds (v ∷ vs) out z (inl h) e =
    unique_from_keeps vs (push v out) z
      (subst (λ (x : Text). Among x (push v out)) h (push_adds v out (rw h e)))
unique_from_adds (v ∷ vs) out z (inr m) e = unique_from_adds vs (push v out) z m e

-- `uniqueSorted` returns the values that are not empty, each once, in ascending order.
unique_sorted-IsAscending :
    (values : List Text)
    → IsAscending text_le (unique_sorted values)
      × ((z : Text) → Among z (unique_sorted values) ↔ (Among z values × (is_empty z ≡ false)))
unfolding unique_sorted
unique_sorted-IsAscending values =
    let members = Among-insertion_sort text_le (unique_from [] values) in
    (
      insertion_sort-IsAscending text_le text_le-IsTotalOrder (unique_from [] values)
          (unique_from-Distinct values [] tt),
      λ z. (
        λ m. elim (Among-unique_from values [] z ((members z).0 m)) [
          | inl n ↦ elim n [ ]
          | inr k ↦ k
        ],
        λ (m, e). (members z).1 (unique_from_adds values [] z m e),
      ),
    )

-- The result depends on the set of the values only: not on their order, nor on how often each
-- occurs, nor on empty values.
unique_sorted-eq :
    (xs ys : List Text)
    → ((z : Text) → is_empty z ≡ false → Among z xs ↔ Among z ys)
    → unique_sorted xs ≡ unique_sorted ys
unique_sorted-eq xs ys h =
    let (s, members) = unique_sorted-IsAscending xs in
    let (t, members') = unique_sorted-IsAscending ys in
    IsAscending-eq text_le text_le-IsTotalOrder (unique_sorted xs) (unique_sorted ys) s t λ z. (
      λ m. let (k, e) = (members z).0 m in (members' z).1 ((h z e).0 k, e),
      λ m. let (k, e) = (members' z).0 m in (members z).1 ((h z e).1 k, e),
    )
