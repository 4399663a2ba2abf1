-- ===== src/Ziz/Client/Retries.antt =====
-- How often `do` asks, how long it waits, and which answer it returns.
use web_scraper.Base.{
  ℕ, zero, suc, ◌+◌, ◌*◌, ◌≤◌, ◌<◌, ◌≡◌, ◌≢◌, refl, ◌⊎◌, inl, inr, Bool, true, false, Option, none,
  some, [], Text, arith, is_empty, ltb, ◌==◌, Bool-cases, Option-cases, Empty,
}
use web_scraper.Base.Int.{ℤ, pos, negsuc}
use web_scraper.Go.Strconv.{atoi}
use web_scraper.Ziz.Client.{
  Try, answered, broken, LastError, bad_status, transport, Reply, got, rejected, cancelled,
  exhausted, second, is_success, is_retryable, cap_seconds, cap_wait, retry_after, backoff, Run,
  finish, wait_then, retry, handle, attempts_from, do_request,
}

cap_seconds_le : (n : ℤ) → cap_seconds n ≤ 10 * second
cap_seconds_le (pos n) = ground arith
cap_seconds_le (negsuc n) = omega arith

cap_wait_le : (n : Option ℤ) → cap_wait n ≤ 10 * second
cap_wait_le none = omega arith
cap_wait_le (some (pos n)) = ground arith
cap_wait_le (some (negsuc n)) = omega arith

-- A Retry-After header, a number or a date, asks for at most ten seconds.
retry_after_le : (until : Text → Option ℤ) (raw : Text) → retry_after until raw ≤ 10 * second
unfolding retry_after
retry_after_le until raw = elim (Bool-cases (is_empty raw)) [
  | inl e ↦ rw e (omega arith)
  | inr e ↦ rw e (elim (Option-cases (atoi raw)) [
    | inl k ↦ rw k (cap_wait_le (until raw))
    | inr (n, k) ↦ rw k (cap_seconds_le n)
  ])
]

backoff_le : (attempt : ℕ) → attempt ≤ 3 → backoff attempt ≤ 10 * second
unfolding backoff
backoff_le zero h = omega arith
backoff_le (suc zero) h = omega arith
backoff_le (suc (suc zero)) h = omega arith
backoff_le (suc (suc (suc zero))) h = omega arith
backoff_le (suc (suc (suc (suc n)))) h = absurd (omega arith)

-- The failures after which another attempt is made.
abbrev IsTransient : Try → Type 0
IsTransient (broken e) = Unit
IsTransient (answered r) = (is_success r.status ≡ false) × (is_retryable r.status ≡ true)

abbrev reason : Try → LastError
reason (broken e) = transport e
reason (answered r) = bad_status r.status

-- The answers after which none is made.
abbrev pub Settles : Try → Reply → Type 0
Settles (broken e) reply = Empty
Settles (answered r) reply =
    ((is_success r.status ≡ true) × (reply ≡ got r))
    ⊎ ((is_success r.status ≡ false) × (is_retryable r.status ≡ false) × (reply ≡ rejected r))

attempt_or_later : (attempt j : ℕ) → attempt ≤ j → (attempt ≡ j) ⊎ (suc attempt ≤ j)
attempt_or_later attempt j h = omega arith

eq_suc_zero : (n : ℕ) → (suc n == 0) ≡ false
eq_suc_zero n = ground arith

module _ (until : Text → Option ℤ) (tries : ℕ → Try) (undisturbed : ℕ → Bool) where
  abbrev pub Limited : ℕ → Run → Type 0
  Limited n r = (r.requests ≤ n) × (r.waited ≤ n * 10 * second)

  -- What becomes of a failure that may be retried.
  abbrev Retried : LastError → ℕ → ℕ → Run → Run → Type 0
  Retried e left attempt rest r =
      ((left ≡ 0) × (r.requests ≡ 1) × (r.reply ≡ exhausted e))
      ⊎ ((undisturbed attempt ≡ false) × (r.requests ≡ 1) × (r.reply ≡ cancelled))
      ⊎ ((left ≢ 0) × (r.requests ≡ suc rest.requests) × (r.reply ≡ rest.reply))

  abbrev Handled : Try → ℕ → ℕ → Run → Run → Type 0
  Handled t left attempt rest r =
      (Settles t r.reply × (r.requests ≡ 1))
      ⊎ (IsTransient t × Retried (reason t) left attempt rest r)

  wait_then-Limited :
      (wait n : ℕ) (b : Bool) (rest : Run)
      → wait ≤ 10 * second
      → Limited n rest
      → Limited (suc n) (wait_then wait b rest)
  wait_then-Limited wait n true rest h (k, l) = (omega arith, omega arith)
  wait_then-Limited wait n false rest h l = (omega arith, omega arith)

  retry-Limited :
      (wait left attempt : ℕ) (e : LastError) (rest : Run)
      → wait ≤ 10 * second
      → attempt ≤ 3
      → (left ≢ 0 → Limited left rest)
      → Limited (suc left) (retry until tries undisturbed wait left attempt e rest)
  unfolding retry
  retry-Limited wait zero attempt e rest h k l = elim (Bool-cases (ltb 0 wait)) [
    | inl w ↦ rw w (
        wait_then-Limited wait 0 (undisturbed attempt)
          (record { reply = exhausted e; requests = 0; waited = 0 }) h (omega arith, omega arith))
    | inr w ↦ rw w (omega arith, omega arith)
  ]
  retry-Limited wait (suc left) attempt e rest h k l = elim (Bool-cases (ltb 0 wait)) [
    | inl w ↦
        rw (w, eq_suc_zero left)
          (wait_then-Limited wait (suc left) (undisturbed attempt) rest h (l (λ p. omega arith)))
    | inr w ↦
        rw (w, eq_suc_zero left)
          (wait_then-Limited (backoff attempt) (suc left) (undisturbed attempt) rest
            (backoff_le attempt k) (l (λ p. omega arith)))
  ]

  handle-Limited :
      (t : Try) (left attempt : ℕ) (rest : Run)
      → attempt ≤ 3
      → (left ≢ 0 → Limited left rest)
      → Limited (suc left) (handle until tries undisturbed t left attempt rest)
  unfolding handle
  handle-Limited (broken e) left attempt rest k l =
      retry-Limited 0 left attempt _ rest (omega arith) k l
  handle-Limited (answered r) left attempt rest k l = elim (Bool-cases (is_success r.status)) [
    | inl a ↦ rw a (omega arith, omega arith)
    | inr a ↦ rw a (elim (Bool-cases (is_retryable r.status)) [
      | inl b ↦ rw b (retry-Limited _ left attempt _ rest (retry_after_le until r.retry_after) k l)
      | inr b ↦ rw b (omega arith, omega arith)
    ])
  ]

  attempts_from-Limited :
      (left attempt : ℕ)
      → attempt + left ≡ 3
      → Limited (suc left) (attempts_from until tries undisturbed left attempt)
  unfolding attempts_from
  attempts_from-Limited zero attempt h =
      handle-Limited (tries attempt) 0 attempt _ (omega arith) (λ p. absurd (p refl))
  attempts_from-Limited (suc left) attempt h =
      handle-Limited (tries attempt) (suc left) attempt _ (omega arith)
        (λ p. attempts_from-Limited left (suc attempt) (omega arith))

  -- `do` makes at most four requests, and the waits between them that run to their end are at
  -- most forty seconds together, whatever the network answers and whenever the context ends.
  pub do_request-Limited : (valid : Bool) → Limited 4 (do_request until tries undisturbed valid)
  unfolding do_request
  do_request-Limited true = attempts_from-Limited 3 0 refl
  do_request-Limited false = (omega arith, omega arith)

  retry-Retried :
      (wait left attempt : ℕ) (e : LastError) (rest : Run)
      → Retried e left attempt rest (retry until tries undisturbed wait left attempt e rest)
  unfolding retry
  retry-Retried wait left attempt e rest = ground arith

  handle-Handled :
      (t : Try) (left attempt : ℕ) (rest : Run)
      → Handled t left attempt rest (handle until tries undisturbed t left attempt rest)
  unfolding handle
  handle-Handled (broken e) left attempt rest = inr (tt, retry-Retried 0 left attempt _ rest)
  handle-Handled (answered r) left attempt rest = elim (Bool-cases (is_success r.status)) [
    | inl a ↦ rw a (inl (inl (refl, refl), refl))
    | inr a ↦ rw a (elim (Bool-cases (is_retryable r.status)) [
      | inl b ↦ rw b (inr ((refl, refl), retry-Retried _ left attempt _ rest))
      | inr b ↦ rw b (inl (inr (refl, refl, refl), refl))
    ])
  ]

  -- The reply is decided by try `k`, and by no try before it.
  abbrev pub Decided : ℕ → ℕ → Run → Type 0
  Decided from k r =
      (from ≤ k)
      × (k ≤ 3)
      × (from + r.requests ≡ suc k)
      × ((j : ℕ) → from ≤ j → j < k → IsTransient (tries j))
      × (Settles (tries k) r.reply
          ⊎ (IsTransient (tries k)
              × (((k ≡ 3) × (r.reply ≡ exhausted (reason (tries k))))
                  ⊎ ((undisturbed k ≡ false) × (r.reply ≡ cancelled)))))

  none_before : (from : ℕ) → (j : ℕ) → from ≤ j → j < from → IsTransient (tries j)
  none_before from j h k = absurd (omega arith)

  later :
      (attempt k : ℕ) (rest r : Run)
      → IsTransient (tries attempt)
      → r.requests ≡ suc rest.requests
      → r.reply ≡ rest.reply
      → Decided (suc attempt) k rest
      → Decided attempt k r
  later attempt k rest r t e f (a, b, c, d, g) = (omega arith, b, omega arith, earlier, rw f g)
    where
      earlier : (j : ℕ) → attempt ≤ j → j < k → IsTransient (tries j)
      earlier j h l = elim (attempt_or_later attempt j h) [ inl p ↦ rw p at t | inr p ↦ d j p l ]

  Decided-step :
      (left attempt : ℕ) (rest r : Run)
      → attempt + left ≡ 3
      → Handled (tries attempt) left attempt rest r
      → (left ≢ 0 → (k : ℕ) × Decided (suc attempt) k rest)
      → (k : ℕ) × Decided attempt k r
  Decided-step left attempt rest r h (inl (s, n)) l =
      (attempt, (omega arith, omega arith, omega arith, none_before attempt, inl s))
  Decided-step left attempt rest r h (inr (t, inl (z, n, e))) l = (
    attempt,
    (omega arith, omega arith, omega arith, none_before attempt, inr (t, inl (omega arith, e))),
  )
  Decided-step left attempt rest r h (inr (t, inr (inl (u, n, e)))) l =
      (attempt, (omega arith, omega arith, omega arith, none_before attempt, inr (t, inr (u, e))))
  Decided-step left attempt rest r h (inr (t, inr (inr (z, n, e)))) l =
      let (k, d) = l z in (k, later attempt k rest r t n e d)

  attempts_from-Decided :
      (left attempt : ℕ)
      → attempt + left ≡ 3
      → (k : ℕ) × Decided attempt k (attempts_from until tries undisturbed left attempt)
  unfolding attempts_from
  attempts_from-Decided zero attempt h =
      let end = finish (exhausted (transport [])) in
      Decided-step 0 attempt end (handle until tries undisturbed (tries attempt) 0 attempt end) h
        (handle-Handled (tries attempt) 0 attempt end) (λ z. absurd (z refl))
  attempts_from-Decided (suc left) attempt h =
      let rest = attempts_from until tries undisturbed left (suc attempt) in
      Decided-step (suc left) attempt rest
        (handle until tries undisturbed (tries attempt) (suc left) attempt rest) h
        (handle-Handled (tries attempt) (suc left) attempt rest)
        (λ z. attempts_from-Decided left (suc attempt) (omega arith))

  -- With a URL that is accepted, the reply of `do` is decided by one of its first four attempts,
  -- the last that it makes, and every attempt before that fails in a way that may pass: without an
  -- answer, or with status 429 or one from 500 on. Where the last is answered otherwise, the
  -- response is returned for a status 200 to 299 and an error with the response for every other;
  -- where it fails in a way that may pass, either it is the fourth attempt and its error is
  -- returned, or the context ended in the wait after it and that error is returned.
  pub do_request-Decided : (k : ℕ) × Decided 0 k (do_request until tries undisturbed true)
  unfolding do_request
  do_request-Decided = attempts_from-Decided 3 0 refl
