-- ===== src/Policy/Search/Accepted.antt =====
-- What an accepted query satisfies.
use web_scraper.Base.{
  text_eq_refl, ℕ, ltb, ◌≤◌, ◌≡◌, refl, sym, Bool, true, false, is_empty, length, arith, not,
  if◌then◌else◌, text_eq,
}
use web_scraper.Policy.Regex.{match_string}
use web_scraper.Policy.Unicode.{Runes, fields}
use web_scraper.Policy.Patterns.{
  url_pattern, secret_patterns, instruction_patterns, internal_target_patterns,
}
use web_scraper.Policy.Search.Normal.{
  normalize_twice, All-has_forbidden, normalize-IsVisible, has_forbidden-All,
}
use web_scraper.Policy.Search.{
  normalize_query, filter_runes, has_forbidden_characters, SearchDecision, accepted, rejected,
  Rejection, matches_any, check_query,
}

abbrev pub IsClean : Runes → Type 0
IsClean q =
    (is_empty q ≡ false)
    × (length q ≤ 240)
    × (length (fields q) ≤ 40)
    × (match_string url_pattern q ≡ false)
    × (matches_any secret_patterns q ≡ false)
    × (matches_any instruction_patterns q ≡ false)
    × (matches_any internal_target_patterns q ≡ false)

passed :
    (b : Bool) (r : Rejection) (rest : SearchDecision) {q : Runes} {n : Bool}
    → (if b then rejected r else rest) ≡ accepted q n
    → (b ≡ false) × (rest ≡ accepted q n)
passed true r rest h = cc
passed false r rest h = (refl, h)

same_query : {p q : Runes} {m n : Bool} → accepted p m ≡ accepted q n → p ≡ q
same_query h = cc

same_flag : {p q : Runes} {m n : Bool} → accepted p m ≡ accepted q n → m ≡ n
same_flag h = cc

not_over : (m n : ℕ) → ltb m n ≡ false → n ≤ m
not_over m n h = ground arith

check_query-IsClean :
    (input query q : Runes) (n : Bool)
    → check_query input query ≡ accepted q n
    → (q ≡ query) × (not (text_eq query input) ≡ n) × IsClean q
unfolding check_query
check_query-IsClean input query q n h =
    let (nonempty, h₁) = passed _ _ _ h in
    let (runes, h₂) = passed _ _ _ h₁ in
    let (terms, h₃) = passed _ _ _ h₂ in
    let (url, h₄) = passed _ _ _ h₃ in
    let (secret, h₅) = passed _ _ _ h₄ in
    let (instruction, h₆) = passed _ _ _ h₅ in
    let (internal, h₇) = passed _ _ _ h₆ in
    (
      sym (same_query h₇),
      same_flag h₇,
      rw (← same_query h₇) (
        nonempty,
        not_over 240 (length query) runes,
        not_over 40 (length (fields query)) terms,
        url,
        secret,
        instruction,
        internal,
      ),
    )

over_false : (m n : ℕ) → n ≤ m → ltb m n ≡ false
over_false m n h = ground arith

IsClean-check_query :
    (input query : Runes)
    → IsClean query
    → check_query input query ≡ accepted query (not (text_eq query input))
unfolding check_query
IsClean-check_query input query (nonempty, runes, terms, url, secret, instruction, internal) =
    rw
      (
        nonempty,
        over_false 240 (length query) runes,
        over_false 40 (length (fields query)) terms,
        url,
        secret,
        instruction,
        internal,
      )
      refl

-- The query of an accepted search: it is the normalized input, it is clean, and it is marked as
-- normalized exactly when it differs from the input.
filter-IsClean :
    (input q : Runes) (n : Bool)
    → filter_runes input ≡ accepted q n
    → (has_forbidden_characters input ≡ false)
      × (q ≡ normalize_query input)
      × (not (text_eq q input) ≡ n)
      × IsClean q
unfolding filter_runes
filter-IsClean input q n h =
    let (visible, h₁) = passed _ _ _ h in
    let (e, k, clean) = check_query-IsClean input (normalize_query input) q n h₁ in
    (visible, e, rw e k, clean)

filter_normal :
    (q : Runes)
    → normalize_query q ≡ q
    → has_forbidden_characters q ≡ false
    → IsClean q
    → filter_runes q ≡ accepted q false
unfolding filter_runes
filter_normal q same visible clean =
    rw (visible, same, IsClean-check_query q q clean, text_eq_refl q) refl

-- A query that the filter accepts is not empty, has at most 240 characters and 40 terms, matches
-- none of the patterns, and is marked as normalized exactly when it differs from the input; and the
-- filter accepts it again, unchanged and not marked.
pub filter_again :
    (input q : Runes) (n : Bool)
    → filter_runes input ≡ accepted q n
    → IsClean q × (not (text_eq q input) ≡ n) × (filter_runes q ≡ accepted q false)
filter_again input q n h =
    let (visible, e, marked, clean) = filter-IsClean input q n h in
    let same : normalize_query q ≡ q = rw e (normalize_twice input) in
    let visible_again : has_forbidden_characters q ≡ false = rw e (
      All-has_forbidden (normalize_query input)
        (normalize-IsVisible input (has_forbidden-All input visible))) in
    (clean, marked, filter_normal q same visible_again clean)
