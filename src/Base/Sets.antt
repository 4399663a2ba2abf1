-- ===== src/Base/Sets.antt =====
-- A set as a list that is added to when the element is not in it.
use web_scraper.Base.{
  ◌≡◌, sym, ◌∙◌, subst, ◌⊎◌, ◌↔◌, inl, inr, Bool, true, List, [], ◌∷◌, ◌++◌, Among, Distinct,
  Among-append, Among-append_right, Among-append_inv, Distinct-append_one, All-of_Among, Bool-cases,
  if◌then◌else◌,
}
use mathlib.Core.Bool.{false≢true}

-- The list has the elements of the predicate, each once.
abbrev pub IsSetOf : {A : Type 0} → (A → Type 0) → List A → Type 0
IsSetOf P xs = Distinct (λ x. x) xs × ((z : _) → Among z xs ↔ P z)

pub IsSetOf-iff :
    {A : Type 0} (P Q : A → Type 0) (xs : List A)
    → ((z : A) → P z ↔ Q z)
    → IsSetOf P xs
    → IsSetOf Q xs
IsSetOf-iff P Q xs h (d, m) = (d, λ z. (λ n. (h z).0 ((m z).0 n), λ q. (m z).1 ((h z).1 q)))

module _ {A : Type 0} (known : A → List A → Bool)
    (known_iff : (v : A) (xs : List A) → (known v xs ≡ true) ↔ Among v xs) where
  pub add-IsSetOf :
      (P : A → Type 0) (v : A) (xs : List A)
      → IsSetOf P xs
      → IsSetOf (λ z. (v ≡ z) ⊎ P z) (if known v xs then xs else xs ++ v ∷ [])
  add-IsSetOf P v xs (d, m) = elim (Bool-cases (known v xs)) [
    | inl e ↦ rw e (
      d,
      λ z. (
        λ n. inr ((m z).0 n),
        λ k. elim k [
          | inl h ↦ subst (λ (y : A). Among y xs) h ((known_iff v xs).0 e)
          | inr h ↦ (m z).1 h
        ],
      ),
    )
    | inr e ↦ rw e (
      Distinct-append_one (λ x. x) xs v
          (All-of_Among _ xs
            λ y n q. false≢true (sym e ∙ (known_iff v xs).1 (subst (λ (z : A). Among z xs) q n)))
          d,
      λ z. (
        λ n. elim (Among-append_inv xs (v ∷ []) z n) [
          | inl k ↦ inr ((m z).0 k)
          | inr (inl h) ↦ inl h
          | inr (inr k) ↦ elim k [ ]
        ],
        λ k. elim k [
          | inl h ↦ subst (λ (y : A). Among y (xs ++ v ∷ [])) h (Among-append_right xs v)
          | inr h ↦ Among-append xs (v ∷ []) z ((m z).1 h)
        ],
      ),
    )
  ]
