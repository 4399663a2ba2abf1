-- ===== src/Ziz/Client/Settings.antt =====
-- internal/ziz/client.go: `NewClient` and `resolve`. net/url is a parameter, and net/http keeps what
-- it is given.
use web_scraper.Base.{
  ℕ, ◌*◌, Bool, ◌||◌, Option, none, some, [], ◌∷◌, ◌++◌, Text, codes, text_eq, is_empty, ◌==◌, ◌&&◌,
  if◌then◌else◌,
}
use web_scraper.Base.Int.{ℤ, pos, ltb_ℤ, pos_part, int64}
use web_scraper.Ziz.Types.{Urls}
use web_scraper.Ziz.Client.{second}

-- strings.TrimRight(s, "/")
unfoldable trim_slashes : Text → Text
trim_slashes [] = []
trim_slashes (c ∷ s) =
    let rest = trim_slashes s in if is_empty rest && c == b'/' then [] else c ∷ rest

-- `conns`, `maxConns` after its test, is positive; its multiples wrap around
abbrev conns_of : ℤ → ℕ
conns_of n = if ltb_ℤ n (pos 1) then 16 else pos_part n

abbrev timeout_of : ℤ → ℤ
timeout_of d = if ltb_ℤ (pos 0) d then d else pos (20 * second)

abbrev agent_of : Text → Text
agent_of agent = if is_empty agent then codes "Jstarzz-web-scraper-ziz-migration/1.0" else agent

module _ (urls : Urls) (scheme : Urls.Url urls → Text) where
  open urls use {Url, parse}

  -- `Client`, with what its transport is given
  pub record Client : Type 0 where
    pub base : Url
    max_idle_conns : ℤ
    max_idle_conns_per_host : ℤ
    max_conns_per_host : ℤ
    pub timeout : ℤ
    pub user_agent : Text

  abbrev is_http : Url → Bool
  is_http u = text_eq (scheme u) (codes "http") || text_eq (scheme u) (codes "https")

  abbrev client_of : Url → ℤ → ℤ → Text → Client
  client_of base timeout max_conns agent = record {
    base = base;
    max_idle_conns = int64 (conns_of max_conns * 4);
    max_idle_conns_per_host = int64 (conns_of max_conns * 2);
    max_conns_per_host = pos (conns_of max_conns);
    timeout = timeout_of timeout;
    user_agent = agent_of agent;
  }

  abbrev checked : Option Url → ℤ → ℤ → Text → Option Client
  checked none timeout max_conns agent = none
  checked (some base) timeout max_conns agent =
      if is_http base then some (client_of base timeout max_conns agent) else none

  -- none is an error
  unfoldable pub new_client : Text → ℤ → ℤ → Text → Option Client
  unfolding trim_slashes
  new_client base_url timeout max_conns agent =
      checked (parse (trim_slashes base_url ++ codes "/")) timeout max_conns agent

  -- `c.resolve`
  unfoldable resolve : Client → Text → Text
  resolve c path = elim (parse path) [
    | none ↦ Urls.show urls c.base
    | some u ↦ Urls.show urls (Urls.resolve urls c.base u)
  ]
