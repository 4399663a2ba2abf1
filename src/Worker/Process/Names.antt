-- ===== src/Worker/Process/Names.antt =====
-- The claim ids of the slots.
use web_scraper.Base.{
  ℕ, zero, suc, ◌/◌, ◌+◌, ◌%◌, ◌≡◌, ◌≢◌, sym, ap, ◌∙◌, [], ◌∷◌, ◌++◌, Text, codes, arith, All,
  All-append, append_assoc, refl, Bool-cases, inl, inr, ltb,
}
use web_scraper.Go.Strconv.{decimal}
use web_scraper.Go.Strconv.Decimal.{number_from, number_from-decimal}
use web_scraper.Config.{Config}
use web_scraper.Worker.Process.{slot_name}

abbrev NoSlash : Text → Type 0
NoSlash s = All (λ c. c ≢ b'/') s

decimal-NoSlash : (fuel n : ℕ) → NoSlash (decimal fuel n)
unfolding decimal
decimal-NoSlash zero n = (λ e. omega (arith, e), tt)
decimal-NoSlash (suc fuel) n = elim (Bool-cases (ltb n 10)) [
  | inl e ↦ rw e (λ z. omega (arith, z), tt)
  | inr e ↦ rw e (
      All-append (λ c. c ≢ b'/') (decimal fuel (n / 10)) ((b'0' + n % 10) ∷ [])
        (decimal-NoSlash fuel (n / 10)) (λ z. omega (arith, z), tt))
]

slash_inside : (w b : Text) → ¬ NoSlash (w ++ b'/' ∷ b)
slash_inside [] b (n, _) = n refl
slash_inside (x ∷ w) b (_, n) = slash_inside w b n

-- A text is split in one way at its last slash.
last_slash :
    (v w a b : Text) → NoSlash a → NoSlash b → v ++ b'/' ∷ a ≡ w ++ b'/' ∷ b → (v ≡ w) × (a ≡ b)
last_slash [] [] a b m n e = (refl, cc)
last_slash [] (x ∷ w) a b m n e =
    let f : a ≡ w ++ b'/' ∷ b = cc in absurd (slash_inside w b (rw f at m))
last_slash (x ∷ v) [] a b m n e =
    let f : b ≡ v ++ b'/' ∷ a = cc in absurd (slash_inside v a (rw f at n))
last_slash (x ∷ v) (y ∷ w) a b m n e =
    let (f, g) = last_slash v w a b m n (cc) in let h : x ≡ y = cc in (cc, g)

-- Two slots of any processes never have the same claim id, if the processes' worker ids differ.
pub slot_name-injective :
    (c d : Config) (i j : ℕ) → slot_name c i ≡ slot_name d j → (c.worker_id ≡ d.worker_id) × (i ≡ j)
unfolding slot_name
slot_name-injective c d i j e =
    let (same, digits) =
      last_slash c.worker_id d.worker_id (decimal (suc i) (suc i)) (decimal (suc j) (suc j))
        (decimal-NoSlash (suc i) (suc i)) (decimal-NoSlash (suc j) (suc j))
        (sym (append_assoc c.worker_id (codes "/") (decimal (suc i) (suc i)))
          ∙ e
          ∙ append_assoc d.worker_id (codes "/") (decimal (suc j) (suc j))) in
    (
      same,
      omega (
        arith,
        ap (number_from 0) digits,
        number_from-decimal (suc i) (suc i) (omega arith),
        number_from-decimal (suc j) (suc j) (omega arith),
      ),
    )
