-- ===== src/Policy/Patterns.antt =====
-- internal/policy/search.go: the patterns. Under (?i) the package regexp also takes the Kelvin sign
-- for k and the long s for s; \b knows ASCII words only.
use web_scraper.Base.{
  ℕ, zero, suc, ◌+◌, Bool, not, ◌||◌, ◌&&◌, List, [], ◌∷◌, Text, String, codes, leb, ◌==◌,
  if◌then◌else◌,
}
use web_scraper.Policy.Regex.{
  Regex, empty, one, seq, alt, star, word_boundary, text_start, text_end, is_word,
}

abbrev is_upper : ℕ → Bool
is_upper c = leb b'A' c && leb c b'Z'

abbrev is_lower : ℕ → Bool
is_lower c = leb b'a' c && leb c b'z'

abbrev is_digit : ℕ → Bool
is_digit c = leb b'0' c && leb c b'9'

abbrev is_alnum : ℕ → Bool
is_alnum c = is_digit c || is_upper c || is_lower c

-- the rune that stands for all that are equal to it under (?i)
abbrev fold_case : ℕ → ℕ
fold_case c =
    if is_upper c then c + 32 else if c == 0x212A then b'k' else if c == 0x17F then b's' else c

-- \s
abbrev is_blank : ℕ → Bool
is_blank c = c == 9 || c == 10 || c == 12 || c == 13 || c == 32

abbrev seqs : List Regex → Regex
seqs [] = empty
seqs (r ∷ []) = r
seqs (r ∷ s ∷ rs) = seq r (seqs (s ∷ rs))

abbrev opt : Regex → Regex
opt r = alt r empty

abbrev plus : Regex → Regex
plus r = seq r (star r)

-- r{n}
abbrev at_least : ℕ → Regex → Regex
at_least zero r = star r
at_least (suc n) r = seq r (at_least n r)

-- r{0,n}
abbrev up_to : ℕ → Regex → Regex
up_to zero r = empty
up_to (suc n) r = opt (seq r (up_to n r))

-- r{n}
abbrev times : ℕ → Regex → Regex
times zero r = empty
times (suc n) r = seq r (times n r)

-- a literal, and a literal under (?i)
abbrev lit : Text → Regex
lit [] = empty
lit (c ∷ s) = seq (one (λ x. x == c)) (lit s)

abbrev lit_i : Text → Regex
lit_i [] = empty
lit_i (c ∷ s) = seq (one (λ x. fold_case x == fold_case c)) (lit_i s)

abbrev str : String → Regex
str s = lit (codes s)

abbrev str_i : String → Regex
str_i s = lit_i (codes s)

-- (?:a|b|…) of literals under (?i)
abbrev any_of : String → List String → Regex
any_of s [] = str_i s
any_of s (t ∷ ts) = alt (str_i s) (any_of t ts)

-- a word, or the word with an s
abbrev maybe_s : String → Regex
maybe_s w = seq (str_i w) (opt (str_i "s"))

abbrev alts : Regex → List Regex → Regex
alts r [] = r
alts r (s ∷ rs) = alt r (alts s rs)

abbrev in_word : Regex → Regex
in_word r = seqs (word_boundary ∷ r ∷ word_boundary ∷ [])

abbrev blanks : Regex
blanks = plus (one is_blank)

-- a character that . matches
abbrev dot : Regex
dot = one (λ c. not (c == 10))

abbrev pub url_pattern : Regex
url_pattern =
    alt
      (seqs (
        word_boundary
        ∷ alts (seq (str_i "http") (opt (str_i "s"))) (str_i "ftp" ∷ str_i "file" ∷ [])
        ∷ str_i "://"
        ∷ []))
      (seqs (word_boundary ∷ str_i "www." ∷ plus (one (λ c. not (is_blank c))) ∷ []))

-- [A-Za-z0-9._~+/\-] under (?i)
abbrev bearer_char : ℕ → Bool
bearer_char x =
    let c = fold_case x in
    is_alnum c || c == b'.' || c == b'_' || c == b'~' || c == b'+' || c == b'/' || c == b'-'

abbrev pub secret_patterns : List Regex
secret_patterns =
    in_word (seq (str "AKIA") (times 16 (one (λ c. is_digit c || is_upper c))))
    ∷ in_word (
        seqs (
          str "gh"
          ∷ one (λ c. c == b'p' || c == b'o' || c == b'u' || c == b's' || c == b'r')
          ∷ str "_"
          ∷ at_least 20 (one is_alnum)
          ∷ []))
    ∷ in_word (seq (str "github_pat_") (at_least 20 (one is_word)))
    ∷ in_word (seq (str "sk-") (at_least 16 (one (λ c. is_word c || c == b'-'))))
    ∷ in_word (seq (str "ws_live_") (at_least 16 (one (λ c. is_word c || c == b'-'))))
    ∷ in_word (seqs (str_i "Bearer" ∷ blanks ∷ at_least 16 (one bearer_char) ∷ []))
    ∷ seqs (
        str_i "-----BEGIN "
        ∷ opt (any_of "RSA " ("EC " ∷ "OPENSSH " ∷ []))
        ∷ str_i "PRIVATE KEY-----"
        ∷ [])
    ∷ []

abbrev pub instruction_patterns : List Regex
instruction_patterns =
    in_word (
      seqs (
        str_i "ignore"
        ∷ blanks
        ∷ opt (seq (any_of "all" ("any" ∷ [])) blanks)
        ∷ any_of "previous" ("prior" ∷ "above" ∷ "system" ∷ "developer" ∷ [])
        ∷ blanks
        ∷ alts (maybe_s "instruction") (maybe_s "prompt" ∷ maybe_s "message" ∷ maybe_s "rule" ∷ [])
        ∷ []))
    ∷ in_word (
        seqs (
          any_of "system" ("developer" ∷ [])
          ∷ blanks
          ∷ alts (str_i "prompt") (str_i "message" ∷ maybe_s "instruction" ∷ [])
          ∷ []))
    ∷ seqs (
        word_boundary
        ∷ any_of "reveal" ("show" ∷ "print" ∷ "dump" ∷ "expose" ∷ "return" ∷ [])
        ∷ word_boundary
        ∷ up_to 48 dot
        ∷ word_boundary
        ∷ alts (str_i "secret") (
            str_i "token"
            ∷ seqs (
                str_i "api" ∷ opt (one (λ c. c == 32 || c == b'_' || c == b'-')) ∷ str_i "key" ∷ [])
            ∷ maybe_s "credential"
            ∷ str_i "environment"
            ∷ seqs (str_i "env" ∷ opt (str_i "ironment") ∷ str_i " variable" ∷ opt (str_i "s") ∷ [])
            ∷ [])
        ∷ word_boundary
        ∷ [])
    ∷ in_word (
        alts (str_i "jailbreak") (
          seqs (str_i "prompt" ∷ blanks ∷ str_i "injection" ∷ [])
          ∷ seqs (
              str_i "bypass"
              ∷ blanks
              ∷ opt (seq (str_i "the") blanks)
              ∷ any_of "filter" ("guardrail" ∷ "policy" ∷ "safety" ∷ [])
              ∷ [])
          ∷ []))
    ∷ seqs (
        word_boundary
        ∷ any_of "do not" ("don't" ∷ [])
        ∷ blanks
        ∷ str_i "follow"
        ∷ word_boundary
        ∷ up_to 32 dot
        ∷ word_boundary
        ∷ alts (maybe_s "instruction") (maybe_s "rule" ∷ str_i "policy" ∷ [])
        ∷ word_boundary
        ∷ [])
    ∷ []

abbrev pub internal_target_patterns : List Regex
internal_target_patterns =
    in_word (any_of "localhost" ("0.0.0.0" ∷ "127.0.0.1" ∷ "169.254.169.254" ∷ []))
    ∷ in_word (str_i "metadata.google.internal")
    ∷ in_word (str_i "process.env")
    ∷ seqs (
        alt text_start (one is_blank)
        ∷ str_i "/etc/"
        ∷ any_of "passwd" ("shadow" ∷ [])
        ∷ alt (one is_blank) text_end
        ∷ [])
    ∷ []
