-- ===== src/Api/Header.antt =====
-- internal/api/server.go: `bearer`, with what it uses of the package strings.
use web_scraper.Go.Strings.{trim_space, split_space}
use web_scraper.Base.{
  ℕ, ◌+◌, Bool, ◌&&◌, Option, none, some, [], Text, codes, text_eq, leb, if◌then◌else◌, map,
}

abbrev lower_ascii : ℕ → ℕ
lower_ascii c = if leb b'A' c && leb c b'Z' then c + 32 else c

-- strings.EqualFold(s, "Bearer"): none of these letters is equal to one outside ASCII
abbrev is_bearer : Text → Bool
is_bearer s = text_eq (map lower_ascii s) (codes "bearer")

abbrev token_of : Option (Text × Text) → Text
token_of none = []
token_of (some (scheme, rest)) = if is_bearer scheme then trim_space rest else []

unfoldable pub bearer : Text → Text
unfolding trim_space split_space
bearer header = token_of (split_space [] header)
