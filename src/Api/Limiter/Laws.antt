-- ===== src/Api/Limiter/Laws.antt =====
-- How many requests the limiter lets through.
use web_scraper.Base.{
  ℕ, ◌+◌, ◌*◌, ◌-◌, ◌≤◌, ◌<◌, ◌≡◌, ◌≢◌, refl, inl, inr, Option, none, some, List, [], ◌∷◌, Text,
  text_eq, text_eq_iff, text_eq_refl, length, All, All-imp, ◌∙◌, min, arith, if◌then◌else◌,
  Bool-cases,
}
use web_scraper.Base.Dict.{lookup, lookup-insert}
use web_scraper.Api.Limiter.{RateWindow, RateLimiter, minute, decide, write, allow, allowed}

-- the count of requests against one window alone
tally : ℕ → List ℕ → Option RateWindow → ℕ
tally limit [] w = 0
tally limit (now ∷ times) w =
    let (w', answer) = decide w limit now in
    (if answer then 1 else 0) + tally limit times (elim w' [ none ↦ w | some v ↦ some v ])

written :
    (id : Text) (w : Option RateWindow) (l : RateLimiter)
    → lookup id (write id w l).items ≡ elim w [ none ↦ lookup id l.items | some v ↦ some v ]
written id none l = refl
written id (some v) l = rw (lookup-insert, text_eq_refl)

write_ne :
    (id id' : Text) (w : Option RateWindow) (l : RateLimiter)
    → id ≢ id'
    → lookup id' (write id w l).items ≡ lookup id' l.items
write_ne id id' none l h = refl
write_ne id id' (some v) l h = rw lookup-insert (elim (Bool-cases (text_eq id id')) [
  | inl e ↦ absurd (h ((text_eq_iff id id').0 e))
  | inr e ↦ rw e
])

lookup-allow :
    (id : Text) (limit now : ℕ) (l : RateLimiter)
    → lookup id (allow id limit now l).1.items
      ≡ elim (decide (lookup id l.items) limit now).0 [ none ↦ lookup id l.items | some v ↦ some v ]
unfolding allow
lookup-allow id limit now l = written id (decide (lookup id l.items) limit now).0 l

answer-allow :
    (id : Text) (limit now : ℕ) (l : RateLimiter)
    → (allow id limit now l).0 ≡ (decide (lookup id l.items) limit now).1
unfolding allow
answer-allow id limit now l = refl

allowed-eq-tally :
    (id : Text) (limit : ℕ) (times : List ℕ) (l : RateLimiter)
    → allowed id limit times l ≡ tally limit times (lookup id l.items)
unfolding allowed tally
allowed-eq-tally id limit [] l = refl
allowed-eq-tally id limit (now ∷ times) l =
    let l' = (allow id limit now l).1 in
    rw (allowed-eq-tally id limit times l', lookup-allow) (rw (answer-allow id limit now l))

-- inside a window that has not ended, what is left of the limit bounds the count
tally_inside :
    (limit start count : ℕ) (times : List ℕ)
    → All (λ t. t < start + minute) times
    → tally limit times (some (record { start = start; count = count }))
      ≡ min (length times) (limit - count)
unfolding tally decide
tally_inside limit start count [] h = omega arith
tally_inside limit start count (t ∷ times) h = ground (
  arith,
  h,
  tally_inside limit start count times h.1,
  tally_inside limit start (count + 1) times h.1,
)

before_end :
    (from t : ℕ) (times : List ℕ)
    → from ≤ t
    → All (λ t'. (from ≤ t') × (t' < from + minute)) times
    → All (λ t'. t' < t + minute) times
before_end from t times h = All-imp _ _ times (λ t' b. omega arith)

-- a window that starts inside the minute outlasts it
tally_fresh :
    (limit from t : ℕ) (times : List ℕ)
    → 1 ≤ limit
    → from ≤ t
    → All (λ t'. (from ≤ t') × (t' < from + minute)) times
    → 1 + tally limit times (some (record { start = t; count = 1 })) ≤ limit
tally_fresh limit from t times l b h =
    rw (tally_inside limit t 1 times (before_end from t times b h)) (omega arith)

-- times within one minute cross at most one end of a window
tally-minute :
    (limit from : ℕ) (times : List ℕ) (w : RateWindow)
    → 1 ≤ limit
    → All (λ t. (from ≤ t) × (t < from + minute)) times
    → tally limit times (some w) ≤ limit - w.count + limit
unfolding tally decide
tally-minute limit from [] w l h = omega arith
tally-minute limit from (t ∷ times) w l h = ground (
  arith,
  h,
  tally_fresh limit from t times l h.0.0 h.1,
  tally-minute limit from times w l h.1,
  tally-minute limit from times (record w { count = w.count + 1 }) l h.1,
)

tally-minute_any :
    (limit from : ℕ) (times : List ℕ) (w : Option RateWindow)
    → 1 ≤ limit
    → All (λ t. (from ≤ t) × (t < from + minute)) times
    → tally limit times w ≤ 2 * limit
unfolding tally decide
tally-minute_any limit from times (some w) l h = omega (arith, tally-minute limit from times w l h)
tally-minute_any limit from [] none l h = omega arith
tally-minute_any limit from (t ∷ times) none l h =
    omega (arith, tally_fresh limit from t times l h.0.0 h.1)

-- Whatever the limiter has seen before, a key with a limit of 1 or more gets at most twice the
-- limit through in any 60 seconds.
pub allowed-minute :
    (id : Text) (limit from : ℕ) (times : List ℕ) (l : RateLimiter)
    → 1 ≤ limit
    → All (λ t. (from ≤ t) × (t < from + minute)) times
    → allowed id limit times l ≤ 2 * limit
allowed-minute id limit from times l h b =
    rw allowed-eq-tally (tally-minute_any limit from times (lookup id l.items) h b)

-- A key with a limit of 1 or more and no window yet gets through, of its first request and those
-- of the next 60 seconds, exactly as many as its limit allows.
allowed_window :
    (id : Text) (limit first : ℕ) (times : List ℕ) (l : RateLimiter)
    → 1 ≤ limit
    → lookup id l.items ≡ none
    → All (λ t. t < first + minute) times
    → allowed id limit (first ∷ times) l ≡ min (length (first ∷ times)) limit
unfolding tally decide
allowed_window id limit first times l h fresh b =
    allowed-eq-tally id limit (first ∷ times) l
    ∙ rw fresh (rw (tally_inside limit first 1 times b) (omega arith))

-- A request of one key leaves the windows of every other key alone.
lookup-allow_ne :
    (id id' : Text) (limit now : ℕ) (l : RateLimiter)
    → id ≢ id'
    → lookup id' (allow id limit now l).1.items ≡ lookup id' l.items
unfolding allow
lookup-allow_ne id id' limit now l h = write_ne id id' (decide (lookup id l.items) limit now).0 l h
