-- ===== src/Policy/Search.antt =====
-- internal/policy/search.go: `FilterSearchQuery`.
pub mod Normal
pub mod Accepted
pub mod Found
use web_scraper.Base.{
  ℕ, ◌-◌, Bool, true, false, not, ◌&&◌, ◌||◌, Option, none, some, List, [], ◌∷◌, Text, String,
  codes, text_eq, is_empty, length, leb, ltb, ◌==◌, if◌then◌else◌, map,
}
use web_scraper.Policy.Regex.{Regex, match_string}
use web_scraper.Policy.Unicode.{Runes, decode, is_format, fields, join}
use web_scraper.Policy.Patterns.{
  url_pattern, secret_patterns, instruction_patterns, internal_target_patterns,
}

abbrev max_query_runes : ℕ
max_query_runes = 240

abbrev max_query_terms : ℕ
max_query_terms = 40

pub record Rejection : Type 0 where
  pub code : Text
  pub message : Text

-- A `SearchDecision` has a rejection or a query, which is kept as its runes.
pub data SearchDecision : Type 0 where
  accepted : Runes → Bool → SearchDecision
  rejected : Rejection → SearchDecision

abbrev reject : String → String → SearchDecision
reject code message = rejected (record { code = codes code; message = codes message })

unfoldable pub matches_any : List Regex → Runes → Bool
matches_any [] value = false
matches_any (p ∷ patterns) value = match_string p value || matches_any patterns value

unfoldable pub is_forbidden : ℕ → Bool
is_forbidden r =
    (ltb r 0x20 && not (r == 9) && not (r == 10) && not (r == 13))
    || (leb 0x7f r && leb r 0x9f)
    || is_format r

unfoldable pub has_forbidden_characters : Runes → Bool
has_forbidden_characters [] = false
has_forbidden_characters (r ∷ rs) = is_forbidden r || has_forbidden_characters rs

unfoldable pub fold_width : ℕ → ℕ
fold_width r = if r == 0x3000 then 0x20 else if leb 0xff01 r && leb r 0xff5e then r - 0xfee0 else r

unfoldable pub normalize_query : Runes → Runes
normalize_query value = join (fields (map fold_width value))

-- the checks on the normalized query
unfoldable pub check_query : Runes → Runes → SearchDecision
check_query input query =
    if is_empty query
    then reject "empty_query" "query is empty after normalization"
    else if ltb max_query_runes (length query)
    then reject "query_too_long" "query exceeds 240 characters"
    else if ltb max_query_terms (length (fields query))
    then reject "too_many_terms" "query exceeds 40 whitespace-delimited terms"
    else if match_string url_pattern query
    then reject "url_in_query" "search queries must be product terms, not URLs"
    else if matches_any secret_patterns query
    then reject "credential_in_query" "query appears to contain a credential or private key"
    else if matches_any instruction_patterns query
    then reject "instruction_injection"
        "query contains instruction-like text that should not be forwarded"
    else if matches_any internal_target_patterns query
    then reject "internal_target"
        "query references a local, metadata, environment, or sensitive host/file target"
    else accepted query (not (text_eq query input))

unfoldable pub filter_runes : Runes → SearchDecision
unfolding check_query
filter_runes input =
    if has_forbidden_characters input
    then reject "control_characters"
        "query contains hidden, bidirectional, or non-text control characters"
    else check_query input (normalize_query input)

unfoldable pub filter_search_query : Text → SearchDecision
unfolding filter_runes
filter_search_query input = elim (decode input) [
  | none ↦ reject "control_characters" "query is not valid UTF-8"
  | some rs ↦ filter_runes rs
]
