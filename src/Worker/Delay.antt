-- ===== src/Worker/Delay.antt =====
-- How long a retry waits.
use web_scraper.Base.{ℕ, zero, suc, ◌+◌, ◌*◌, ◌^◌, ◌≤◌, ◌<◌, ◌≡◌, refl, ◌∙◌, min, arith}
use web_scraper.Base.Int.{ℤ, pos, negsuc, pos_part, ◌≤ℤ◌, int64}
use web_scraper.Config.{Config, loaded, check, second, ms}
use web_scraper.Config.Bounds.{check-IsSane}
use web_scraper.Worker.{plus, cap_backoff, retry_delay, max_backoff, millisecond, shift_of}

-- 1, 2, 4, 8, and 16 from the fifth attempt on
unfoldable pub factor : ℕ → ℕ
factor zero = 1
factor (suc zero) = 1
factor (suc (suc zero)) = 2
factor (suc (suc (suc zero))) = 4
factor (suc (suc (suc (suc zero)))) = 8
factor (suc (suc (suc (suc (suc n))))) = 16

-- the delay of a shift that is known
delay_at : ℕ → ℕ → ℕ → ℤ
delay_at base shift jitter = plus (cap_backoff (int64 (base * 2 ^ shift))) (jitter * millisecond)

retry_delay-at :
    (base attempt jitter : ℕ)
    → retry_delay base attempt jitter ≡ delay_at base (shift_of attempt) jitter
unfolding retry_delay delay_at
retry_delay-at base attempt jitter = refl

shift_late : (n : ℕ) → shift_of (suc (suc (suc (suc (suc n))))) ≡ 4
shift_late n = ground arith

delay_late :
    (base jitter : ℕ)
    → base ≤ 30000000000
    → delay_at base 4 jitter ≡ pos (min (base * 16) max_backoff + jitter * millisecond)
unfolding delay_at
delay_late base jitter h = ground arith

-- With a base of at most 30 seconds no shift or product overflows: the delay is the base doubled
-- for each earlier attempt, at most sixteenfold and at most 15 seconds, plus the jitter.
retry_delay_exact :
    (base attempt jitter : ℕ)
    → base ≤ 30000000000
    → retry_delay base attempt jitter
      ≡ pos (min (base * factor attempt) max_backoff + jitter * millisecond)
unfolding retry_delay factor
retry_delay_exact base zero jitter h = ground arith
retry_delay_exact base (suc zero) jitter h = ground arith
retry_delay_exact base (suc (suc zero)) jitter h = ground arith
retry_delay_exact base (suc (suc (suc zero))) jitter h = ground arith
retry_delay_exact base (suc (suc (suc (suc zero)))) jitter h = ground arith
retry_delay_exact base (suc (suc (suc (suc (suc n))))) jitter h =
    retry_delay-at base (suc (suc (suc (suc (suc n))))) jitter
    ∙ rw (shift_late n) (delay_late base jitter h)

factor_bounds : (n : ℕ) → (1 ≤ factor n) × (factor n ≤ 16)
unfolding factor
factor_bounds zero = omega arith
factor_bounds (suc zero) = omega arith
factor_bounds (suc (suc zero)) = omega arith
factor_bounds (suc (suc (suc zero))) = omega arith
factor_bounds (suc (suc (suc (suc zero)))) = omega arith
factor_bounds (suc (suc (suc (suc (suc n))))) = omega arith

within :
    (base f jitter : ℕ)
    → 100000000 ≤ base
    → 1 ≤ f
    → jitter < 500
    → (pos 100000000 ≤ℤ pos (min (base * f) 15000000000 + jitter * 1000000))
      × (pos (min (base * f) 15000000000 + jitter * 1000000) ≤ℤ pos 15499000000)
within base f jitter b p j = grind arith

base_bounds :
    (x : ℤ)
    → (pos (100 * ms) ≤ℤ x) × (x ≤ℤ pos (30 * second))
    → (100000000 ≤ pos_part x) × (pos_part x ≤ 30000000000)
base_bounds (pos n) h = omega (arith, h.0, h.1)
base_bounds (negsuc n) h = absurd (omega (arith, h.0))

-- With every configuration that `Load` accepts, no shift or product of a retry's delay overflows:
-- after each failed attempt the delay is the configured base, doubled for each earlier attempt at
-- most four times and capped at 15 seconds, plus the jitter. So it is at least 100 milliseconds and
-- at most 15.499 seconds.
pub retry_delay-check :
    (c c' : Config) (attempt jitter : ℕ)
    → check c ≡ loaded c'
    → 1 ≤ attempt
    → jitter < 500
    → let base = pos_part c'.worker_retry_base in
      let delay = retry_delay base attempt jitter in
      (delay ≡ pos (min (base * factor attempt) 15000000000 + jitter * 1000000))
      × (pos 100000000 ≤ℤ delay)
      × (delay ≤ℤ pos 15499000000)
retry_delay-check c c' attempt jitter h a j =
    let (same, sane) = check-IsSane c c' h in
    let (low, high) = base_bounds c'.worker_retry_base (rw same sane.retry) in
    let base = pos_part c'.worker_retry_base in
    let exact = retry_delay_exact base attempt jitter high in
    let (least, most) = within base (factor attempt) jitter low (factor_bounds attempt).0 j in
    (exact, rw exact least, rw exact most)
