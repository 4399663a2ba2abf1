-- ===== src/Config.antt =====
-- internal/config/config.go: the configuration from the environment, and its checks. Durations are
-- in nanoseconds. `getenv` is the environment (`os.Getenv`, "" for what is not set), `hostname` the
-- answer of `os.Hostname`, `parse_duration` is `time.ParseDuration`.
pub mod Bounds
use web_scraper.Go.Strconv.{atoi}
use web_scraper.Base.{
  ℕ, zero, suc, ◌+◌, ◌*◌, ◌-◌, ◌≤◌, Bool, true, false, not, ◌&&◌, ◌||◌, Option, none, some, List,
  [], ◌∷◌, Text, codes, is_empty, ltb, leb, ◌==◌, if◌then◌else◌,
}
use web_scraper.Base.Int.{ℤ, pos, negsuc, ltb_ℤ}

pub record Config : Type 0 where
  pub api_addr : Text
  pub database_url : Text
  pub admin_token : Text
  pub retention_days : ℤ
  pub worker_id : Text
  pub worker_concurrency : ℤ
  pub worker_poll_interval : ℤ
  pub worker_max_attempts : ℤ
  pub worker_retry_base : ℤ
  pub worker_heartbeat_interval : ℤ
  pub worker_stale_after : ℤ
  pub browser_worker_url : Text
  pub browser_request_timeout : ℤ

-- the errors of `Load`, by the variable that each names
pub data ConfigError : Type 0 where
  no_database_url bad_retention bad_concurrency bad_poll_interval bad_max_attempts : ConfigError
  bad_retry_base bad_heartbeat_interval bad_stale_after bad_request_timeout : ConfigError

pub data Loaded : Type 0 where
  loaded : Config → Loaded
  refused : ConfigError → Loaded

abbrev pub second : ℕ
second = 1000000000

abbrev pub ms : ℕ
ms = 1000000

-- 3*d. `Load` computes it only for d of at most a minute, where int64 does not wrap.
unfoldable pub triple : ℤ → ℤ
triple (pos n) = pos (3 * n)
triple (negsuc n) = negsuc (3 * n + 2)

abbrev pub outside : ℤ → ℕ → ℕ → Bool
outside x lo hi = ltb_ℤ x (pos lo) || ltb_ℤ (pos hi) x

-- the checks of `Load`, in their order
unfoldable pub check : Config → Loaded
unfolding triple
check c =
    if is_empty c.database_url
    then refused no_database_url
    else if ltb_ℤ c.retention_days (pos 1)
    then refused bad_retention
    else if outside c.worker_concurrency 1 64
    then refused bad_concurrency
    else if outside c.worker_poll_interval (50 * ms) (30 * second)
    then refused bad_poll_interval
    else if outside c.worker_max_attempts 1 5
    then refused bad_max_attempts
    else if outside c.worker_retry_base (100 * ms) (30 * second)
    then refused bad_retry_base
    else if outside c.worker_heartbeat_interval (5 * second) (60 * second)
    then refused bad_heartbeat_interval
    else if ltb_ℤ c.worker_stale_after (triple c.worker_heartbeat_interval)
    then refused bad_stale_after
    else if outside c.browser_request_timeout (5 * second) (300 * second)
    then refused bad_request_timeout
    else loaded c

abbrev or_else {ℓ} : {A : Type ℓ} → Option A → A → A
or_else none d = d
or_else (some a) d = a

-- `hostname()`
unfoldable pub host : Option Text → Text
host none = codes "worker"
host (some name) = if is_empty name then codes "worker" else name

module _ (getenv : Text → Text) (hostname : Option Text) (parse_duration : Text → Option ℤ) where
  unfoldable pub env : Text → Text → Text
  env key fallback = if is_empty (getenv key) then fallback else getenv key

  unfoldable env_int : Text → ℤ → ℤ
  env_int key fallback =
      if is_empty (getenv key) then fallback else or_else (atoi (getenv key)) fallback

  unfoldable env_duration : Text → ℤ → ℤ
  env_duration key fallback =
      if is_empty (getenv key) then fallback else or_else (parse_duration (getenv key)) fallback

  unfoldable pub read : Config
  unfolding env env_int env_duration host
  read = record {
    api_addr = env (codes "API_ADDR") (codes ":8080");
    database_url = getenv (codes "DATABASE_URL");
    admin_token = getenv (codes "ADMIN_TOKEN");
    retention_days = env_int (codes "RETENTION_DAYS") (pos 60);
    worker_id = env (codes "WORKER_ID") (host hostname);
    worker_concurrency = env_int (codes "WORKER_CONCURRENCY") (pos 4);
    worker_poll_interval = env_duration (codes "WORKER_POLL_INTERVAL") (pos (200 * ms));
    worker_max_attempts = env_int (codes "WORKER_MAX_ATTEMPTS") (pos 3);
    worker_retry_base = env_duration (codes "WORKER_RETRY_BASE") (pos second);
    worker_heartbeat_interval =
        env_duration (codes "WORKER_HEARTBEAT_INTERVAL") (pos (20 * second));
    worker_stale_after = env_duration (codes "WORKER_STALE_AFTER") (pos (90 * second));
    browser_worker_url = env (codes "BROWSER_WORKER_URL") (codes "http://browser-worker:3000");
    browser_request_timeout = env_duration (codes "BROWSER_REQUEST_TIMEOUT") (pos (45 * second));
  }

  unfoldable load : Loaded
  unfolding read check
  load = check read
