-- ===== src/Api/Limiter.antt =====
-- internal/api/server.go: `rateLimiter`, a fixed window of a minute for each key. Times are in
-- nanoseconds. A window that is in the map has a start, so `start.IsZero()` is "not in the map".
pub mod Laws
use web_scraper.Base.{
  ℕ, ◌+◌, Bool, true, false, Option, none, some, List, [], ◌∷◌, Text, ltb, leb, if◌then◌else◌,
}
use web_scraper.Base.Dict.{lookup, insert}

pub record RateWindow : Type 0 where
  pub start : ℕ
  pub count : ℕ

pub record RateLimiter : Type 0 where
  pub items : List (Text × RateWindow)

abbrev pub minute : ℕ
minute = 60000000000

unfoldable pub new_rate_limiter : RateLimiter
new_rate_limiter = record { items = [] }

-- the window to store, if one is, and the answer
unfoldable pub decide : Option RateWindow → ℕ → ℕ → Option RateWindow × Bool
decide none limit now = (some (record { start = now; count = 1 }), true)
decide (some w) limit now =
    if leb (w.start + minute) now
    then (some (record { start = now; count = 1 }), true)
    else if leb limit w.count
    then (none, false)
    else (some (record w { count = w.count + 1 }), true)

abbrev pub write : Text → Option RateWindow → RateLimiter → RateLimiter
write id none l = l
write id (some w) l = record { items = insert id w l.items }

unfoldable pub allow : Text → ℕ → ℕ → RateLimiter → Bool × RateLimiter
unfolding decide
allow id limit now l =
    let (w, answer) = decide (lookup id l.items) limit now in (answer, write id w l)

-- One client's requests at the given times: how many are allowed.
unfoldable pub allowed : Text → ℕ → List ℕ → RateLimiter → ℕ
allowed id limit [] l = 0
allowed id limit (now ∷ times) l =
    let (answer, l') = allow id limit now l in (if answer then 1 else 0) + allowed id limit times l'
