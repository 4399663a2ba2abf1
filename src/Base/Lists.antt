-- ===== src/Base/Lists.antt =====
-- Lists measured by native numbers, and tables: lists of rows that are searched and updated by a
-- test on the row, as a statement with a WHERE clause does.
use Prim.Native.Nat.{ℕ, zero, suc, ◌+◌}
use mathlib.Core.Path.{◌≡◌, refl}
use mathlib.Core.Logic.{◌⊎◌, ◌≢◌, inl, inr}
use mathlib.Core.Bool.{Bool, true}
use mathlib.Core.List.{List, [], ◌∷◌, ◌++◌}
use mathlib.Core.Option.{Option, none, some}
use native.Mathlib.Omega.{arith}
use web_scraper.Base.Tests.{if◌then◌else◌, Bool-cases}

-- the empty type, at every level
pub data Empty {ℓ} : Type ℓ where

module _ {ℓ} {A : Type ℓ} where
  abbrev pub length : List A → ℕ
  length [] = 0
  length (x ∷ xs) = suc (length xs)

  abbrev pub take : ℕ → List A → List A
  take zero xs = []
  take (suc n) [] = []
  take (suc n) (x ∷ xs) = x ∷ take n xs

  abbrev pub get_elem? : List A → ℕ → Option A
  get_elem? [] n = none
  get_elem? (x ∷ xs) zero = some x
  get_elem? (x ∷ xs) (suc n) = get_elem? xs n

  abbrev pub set : List A → ℕ → A → List A
  set [] n a = []
  set (x ∷ xs) zero a = a ∷ xs
  set (x ∷ xs) (suc n) a = x ∷ set xs n a

  abbrev pub All {κ} : (A → Type κ) → List A → Type κ
  All P [] = Unit
  All P (x ∷ xs) = P x × All P xs

  -- `a` is one of the elements.
  abbrev pub Among : A → List A → Type ℓ
  Among a [] = Empty
  Among a (x ∷ xs) = (x ≡ a) ⊎ Among a xs

  -- No two elements have the same key.
  abbrev pub Distinct : {K : Type 0} → (A → K) → List A → Type 0
  Distinct key [] = Unit
  Distinct key (x ∷ xs) = All (λ y. key y ≢ key x) xs × Distinct key xs

  -- SELECT … LIMIT 1
  unfoldable pub find_where : (A → Bool) → List A → Option A
  find_where p [] = none
  find_where p (x ∷ xs) = if p x then some x else find_where p xs

  -- UPDATE … WHERE
  unfoldable pub update_where : (A → Bool) → (A → A) → List A → List A
  update_where p f [] = []
  update_where p f (x ∷ xs) = (if p x then f x else x) ∷ update_where p f xs

  -- the number of rows that a statement with this WHERE clause affects
  unfoldable pub count_where : (A → Bool) → List A → ℕ
  count_where p [] = 0
  count_where p (x ∷ xs) = (if p x then 1 else 0) + count_where p xs

  -- SELECT … WHERE, and what DELETE leaves for the opposite test
  unfoldable pub select_where : (A → Bool) → List A → List A
  select_where p [] = []
  select_where p (x ∷ xs) = let rest = select_where p xs in if p x then x ∷ rest else rest

module _ {ℓ} {A : Type ℓ} where
  pub length-append : (xs ys : List A) → length (xs ++ ys) ≡ length xs + length ys
  length-append [] ys = omega arith
  length-append (x ∷ xs) ys = omega (arith, length-append xs ys)

  pub All-append {κ} : (P : A → Type κ) (xs ys : List A) → All P xs → All P ys → All P (xs ++ ys)
  All-append P [] ys _ hy = hy
  All-append P (x ∷ xs) ys (px, hx) hy = (px, All-append P xs ys hx hy)

  pub All-imp {κ ι} :
      (P : A → Type κ) (Q : A → Type ι) (xs : List A) → ((x : A) → P x → Q x) → All P xs → All Q xs
  All-imp P Q [] f _ = tt
  All-imp P Q (x ∷ xs) f (px, hx) = (f x px, All-imp P Q xs f hx)

  -- A predicate of every row holds after an update that keeps it on the rows it changes.
  pub All-update_where {κ} :
      (P : A → Type κ) (p : A → Bool) (f : A → A) (xs : List A)
      → ((x : A) → Among x xs → P x → p x ≡ true → P (f x))
      → All P xs
      → All P (update_where p f xs)
  unfolding update_where
  All-update_where P p f [] k _ = tt
  All-update_where P p f (x ∷ xs) k (px, hx) =
      (here, All-update_where P p f xs (λ y m. k y (inr m)) hx)
    where
      here : P (if p x then f x else x)
      here = elim (Bool-cases (p x)) [ inl e ↦ rw e (k x (inl refl) px e) | inr e ↦ rw e px ]

  pub All-find_where {κ} :
      (P : A → Type κ) (p : A → Bool) (xs : List A) (a : A)
      → find_where p xs ≡ some a
      → All P xs
      → P a
  unfolding find_where
  All-find_where P p [] a e _ = cc
  All-find_where P p (x ∷ xs) a e (px, hx) = elim (Bool-cases (p x)) [
    | inl t ↦ subst' (ap_some (rw t at e)) px
    | inr t ↦ All-find_where P p xs a (rw t at e) hx
  ]
    where
      ap_some : some x ≡ some a → x ≡ a
      ap_some h = cc

      subst' : x ≡ a → P x → P a
      subst' h q = rw h at q

  -- Nothing is found exactly when no row is counted.
  pub find_where-none : (p : A → Bool) (xs : List A) → find_where p xs ≡ none → count_where p xs ≡ 0
  unfolding find_where count_where
  find_where-none p [] e = refl
  find_where-none p (x ∷ xs) e = ground (arith, find_where-none p xs)

  -- An update that touches no row is no update.
  pub update_where-none :
      (p : A → Bool) (f : A → A) (xs : List A) → count_where p xs ≡ 0 → update_where p f xs ≡ xs
  unfolding update_where count_where
  update_where-none p f [] e = refl
  update_where-none p f (x ∷ xs) e = ground (arith, update_where-none p f xs)

-- ORDER BY: a stable sort by a total test.
module _ {ℓ} {A : Type ℓ} (le : A → A → Bool) where
  unfoldable pub insert_by : A → List A → List A
  insert_by a [] = a ∷ []
  insert_by a (x ∷ xs) = if le a x then a ∷ x ∷ xs else x ∷ insert_by a xs

  unfoldable pub insertion_sort : List A → List A
  unfolding insert_by
  insertion_sort [] = []
  insertion_sort (x ∷ xs) = insert_by x (insertion_sort xs)
