-- ===== src/Go/Strconv/Decimal.antt =====
-- The digits of a number can be read back.
use web_scraper.Base.{
  ℕ, zero, suc, ◌+◌, ◌-◌, ◌*◌, ◌/◌, ◌%◌, ◌≤◌, ◌≡◌, refl, [], ◌∷◌, ◌++◌, Text, ltb, arith,
  Bool-cases, inl, inr,
}
use web_scraper.Go.Strconv.{decimal}

-- The number that digits write, after the number `n`.
abbrev pub number_from : ℕ → Text → ℕ
number_from n [] = n
number_from n (c ∷ s) = number_from (n * 10 + (c - b'0')) s

number_from-append :
    (n c : ℕ) (s : Text) → number_from n (s ++ c ∷ []) ≡ number_from n s * 10 + (c - b'0')
number_from-append n c [] = refl
number_from-append n c (d ∷ s) = number_from-append (n * 10 + (d - b'0')) c s

pub number_from-decimal : (fuel n : ℕ) → n ≤ fuel → number_from 0 (decimal fuel n) ≡ n
unfolding decimal
number_from-decimal zero n h = omega arith
number_from-decimal (suc fuel) n h = elim (Bool-cases (ltb n 10)) [
  | inl e ↦ rw e (omega arith)
  | inr e ↦
      rw
        (
          e,
          number_from-append 0 (b'0' + n % 10) (decimal fuel (n / 10)),
          number_from-decimal fuel (n / 10) (omega arith),
        )
        (omega arith)
]
