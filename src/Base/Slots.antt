-- ===== src/Base/Slots.antt =====
-- A list as numbered slots that are read, overwritten and weighed.
use Prim.Native.Nat.{ℕ, zero, suc, ◌+◌, ◌*◌, ◌≤◌}
use mathlib.Core.Path.{◌≡◌, refl}
use mathlib.Core.Logic.{◌⊎◌, ◌≢◌, inl, inr}
use mathlib.Core.List.{List, [], ◌∷◌}
use mathlib.Core.Option.{some}
use native.Mathlib.Omega.{arith}
use web_scraper.Base.Lists.{length, get_elem?, set, All}

pub same_slot : (j i : ℕ) → (j ≡ i) ⊎ (j ≢ i)
same_slot j i = omega arith

module _ {ℓ} {A : Type ℓ} where
  pub get_elem?-set_same :
      (xs : List A) (i : ℕ) (x y : A) → get_elem? xs i ≡ some x → get_elem? (set xs i y) i ≡ some y
  get_elem?-set_same [] i x y h = cc
  get_elem?-set_same (z ∷ xs) zero x y h = refl
  get_elem?-set_same (z ∷ xs) (suc i) x y h = get_elem?-set_same xs i x y h

  pub get_elem?-set_ne :
      (xs : List A) (i j : ℕ) (y : A) → j ≢ i → get_elem? (set xs i y) j ≡ get_elem? xs j
  get_elem?-set_ne [] i j y n = refl
  get_elem?-set_ne (z ∷ xs) zero zero y n = absurd (n refl)
  get_elem?-set_ne (z ∷ xs) zero (suc j) y n = refl
  get_elem?-set_ne (z ∷ xs) (suc i) zero y n = refl
  get_elem?-set_ne (z ∷ xs) (suc i) (suc j) y n = get_elem?-set_ne xs i j y (λ e. n (omega arith))

  pub get_elem?-set :
      (xs : List A) (i j : ℕ) (y z : A)
      → get_elem? (set xs i y) j ≡ some z
      → (y ≡ z) ⊎ (get_elem? xs j ≡ some z)
  get_elem?-set [] i j y z h = inr h
  get_elem?-set (x ∷ xs) zero zero y z h = inl (cc)
  get_elem?-set (x ∷ xs) zero (suc j) y z h = inr h
  get_elem?-set (x ∷ xs) (suc i) zero y z h = inr h
  get_elem?-set (x ∷ xs) (suc i) (suc j) y z h = get_elem?-set xs i j y z h

  pub length-set : (xs : List A) (i : ℕ) (y : A) → length (set xs i y) ≡ length xs
  length-set [] i y = refl
  length-set (x ∷ xs) zero y = refl
  length-set (x ∷ xs) (suc i) y = omega (arith, length-set xs i y)

  pub get_elem?-All {κ} :
      (P : A → Type κ) (xs : List A) (i : ℕ) (x : A) → All P xs → get_elem? xs i ≡ some x → P x
  get_elem?-All P [] i x _ h = cc
  get_elem?-All P (y ∷ xs) zero x (p, _) h = first y x (cc) p
    where
      first : (a b : A) → a ≡ b → P a → P b
      first a b e q = rw e at q
  get_elem?-All P (y ∷ xs) (suc i) x (_, ps) h = get_elem?-All P xs i x ps h

  module _ (weight : A → ℕ) where
    abbrev pub weigh : List A → ℕ
    weigh [] = 0
    weigh (x ∷ xs) = weight x + weigh xs

    pub weigh-set :
        (xs : List A) (i : ℕ) (x y : A)
        → get_elem? xs i ≡ some x
        → weigh (set xs i y) + weight x ≡ weigh xs + weight y
    weigh-set [] i x y h = cc
    weigh-set (z ∷ xs) zero x y h = let e : z ≡ x = cc in rw e (omega arith)
    weigh-set (z ∷ xs) (suc i) x y h = omega (arith, weigh-set xs i x y h)

    pub weigh_zero : (xs : List A) → All (λ x. weight x ≡ 0) xs → weigh xs ≡ 0
    weigh_zero [] _ = refl
    weigh_zero (x ∷ xs) (e, es) = omega (arith, weigh_zero xs es)

    pub weigh_le : ((x : A) → weight x ≤ 4) → (xs : List A) → weigh xs ≤ 4 * length xs
    weigh_le h [] = omega arith
    weigh_le h (x ∷ xs) = omega (arith, weigh_le h xs, h x)

    -- A slot of some weight, if there is one.
    pub first_weighted :
        (xs : List A)
        → All (λ x. weight x ≡ 0) xs
          ⊎ ((i : ℕ) × (x : A) × (get_elem? xs i ≡ some x) × (weight x ≢ 0))
    first_weighted [] = inl tt
    first_weighted (x ∷ xs) = elim (zero_or_not (weight x)) [
      | inr n ↦ inr (0, x, refl, n)
      | inl e ↦ elim (first_weighted xs) [
        | inl h ↦ inl (e, h)
        | inr (i, y, g, n) ↦ inr (suc i, y, g, n)
      ]
    ]
      where
        zero_or_not : (n : ℕ) → (n ≡ 0) ⊎ (n ≢ 0)
        zero_or_not n = omega arith
