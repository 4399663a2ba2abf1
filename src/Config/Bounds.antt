-- ===== src/Config/Bounds.antt =====
-- Which configurations `Load` accepts.
use web_scraper.Base.{
  ℕ, ◌*◌, ◌≡◌, ◌↔◌, refl, sym, Bool, true, false, arith, is_empty, if◌then◌else◌,
}
use web_scraper.Base.Int.{ℤ, pos, ◌≤ℤ◌, ltb_ℤ}
use web_scraper.Config.{
  Config, ConfigError, outside, no_database_url, bad_retention, bad_concurrency, bad_poll_interval,
  bad_max_attempts, bad_retry_base, bad_heartbeat_interval, bad_stale_after, bad_request_timeout,
  Loaded, loaded, refused, check, triple, second, ms,
}

-- The ranges that the workers rely on.
pub record IsSane (c : Config) : Type 0 where
  pub database : is_empty c.database_url ≡ false
  pub retention : pos 1 ≤ℤ c.retention_days
  pub concurrency : (pos 1 ≤ℤ c.worker_concurrency) × (c.worker_concurrency ≤ℤ pos 64)
  pub poll :
      (pos (50 * ms) ≤ℤ c.worker_poll_interval) × (c.worker_poll_interval ≤ℤ pos (30 * second))
  pub attempts : (pos 1 ≤ℤ c.worker_max_attempts) × (c.worker_max_attempts ≤ℤ pos 5)
  pub retry : (pos (100 * ms) ≤ℤ c.worker_retry_base) × (c.worker_retry_base ≤ℤ pos (30 * second))
  pub heartbeat :
      (pos (5 * second) ≤ℤ c.worker_heartbeat_interval)
      × (c.worker_heartbeat_interval ≤ℤ pos (60 * second))
  pub stale : triple c.worker_heartbeat_interval ≤ℤ c.worker_stale_after
  pub timeout :
      (pos (5 * second) ≤ℤ c.browser_request_timeout)
      × (c.browser_request_timeout ≤ℤ pos (300 * second))

not_below : (a b : ℤ) → ltb_ℤ a b ≡ false → b ≤ℤ a
not_below a b h = ground arith

below_false : (a b : ℤ) → b ≤ℤ a → ltb_ℤ a b ≡ false
below_false a b h = ground arith

inside : (x : ℤ) (lo hi : ℕ) → outside x lo hi ≡ false → (pos lo ≤ℤ x) × (x ≤ℤ pos hi)
inside x lo hi h = ground (arith, not_below x (pos lo), not_below (pos hi) x)

inside_false : (x : ℤ) (lo hi : ℕ) → (pos lo ≤ℤ x) × (x ≤ℤ pos hi) → outside x lo hi ≡ false
inside_false x lo hi h = rw (below_false x (pos lo) h.0, below_false (pos hi) x h.1)

passed :
    (b : Bool) (e : ConfigError) (rest : Loaded) (c : Config)
    → (if b then refused e else rest) ≡ loaded c
    → (b ≡ false) × (rest ≡ loaded c)
passed true e rest c h = cc
passed false e rest c h = (refl, h)

loaded_eq : (a b : Config) → loaded a ≡ loaded b → a ≡ b
loaded_eq a b h = cc

pub check-IsSane : (c c' : Config) → check c ≡ loaded c' → (c' ≡ c) × IsSane c
unfolding check
check-IsSane c c' h =
    let (database, h₁) = passed _ no_database_url _ c' h in
    let (retention, h₂) = passed _ bad_retention _ c' h₁ in
    let (concurrency, h₃) = passed _ bad_concurrency _ c' h₂ in
    let (poll, h₄) = passed _ bad_poll_interval _ c' h₃ in
    let (attempts, h₅) = passed _ bad_max_attempts _ c' h₄ in
    let (retry, h₆) = passed _ bad_retry_base _ c' h₅ in
    let (heartbeat, h₇) = passed _ bad_heartbeat_interval _ c' h₆ in
    let (stale, h₈) = passed _ bad_stale_after _ c' h₇ in
    let (timeout, h₉) = passed _ bad_request_timeout _ c' h₈ in
    (
      sym (loaded_eq c c' h₉),
      record {
        database = database;
        retention = not_below c.retention_days (pos 1) retention;
        concurrency = inside c.worker_concurrency 1 64 concurrency;
        poll = inside c.worker_poll_interval (50 * ms) (30 * second) poll;
        attempts = inside c.worker_max_attempts 1 5 attempts;
        retry = inside c.worker_retry_base (100 * ms) (30 * second) retry;
        heartbeat = inside c.worker_heartbeat_interval (5 * second) (60 * second) heartbeat;
        stale = not_below c.worker_stale_after (triple c.worker_heartbeat_interval) stale;
        timeout = inside c.browser_request_timeout (5 * second) (300 * second) timeout;
      },
    )

IsSane-check : (c : Config) → IsSane c → check c ≡ loaded c
unfolding check
IsSane-check c s = rw (
  s.database,
  below_false c.retention_days (pos 1) s.retention,
  inside_false c.worker_concurrency 1 64 s.concurrency,
  inside_false c.worker_poll_interval (50 * ms) (30 * second) s.poll,
  inside_false c.worker_max_attempts 1 5 s.attempts,
  inside_false c.worker_retry_base (100 * ms) (30 * second) s.retry,
  inside_false c.worker_heartbeat_interval (5 * second) (60 * second) s.heartbeat,
  below_false c.worker_stale_after (triple c.worker_heartbeat_interval) s.stale,
  inside_false c.browser_request_timeout (5 * second) (300 * second) s.timeout,
)

-- `Load`'s checks accept exactly the configurations in these ranges, and hand them on unchanged.
check_iff : (c c' : Config) → (check c ≡ loaded c') ↔ ((c' ≡ c) × IsSane c)
check_iff c c' = (check-IsSane c c', λ (e, s). rw e (IsSane-check c s))
