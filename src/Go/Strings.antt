-- ===== src/Go/Strings.antt =====
-- The package strings.
use web_scraper.Base.{
  ltb, length, List, ◌+◌, if◌then◌else◌, ℕ, Bool, true, false, ◌&&◌, ◌||◌, Option, none, some, [],
  ◌∷◌, ◌++◌, Text, leb, ◌==◌, is_empty,
}

-- white space of one, two and three bytes in UTF-8
abbrev space1 : ℕ → Bool
space1 a = (leb 9 a && leb a 13) || a == 32

abbrev space2 : ℕ → ℕ → Bool
space2 a b = a == 0xC2 && (b == 0x85 || b == 0xA0)

abbrev space3 : ℕ → ℕ → ℕ → Bool
space3 a b c =
    (a == 0xE1 && b == 0x9A && c == 0x80)
    || (a == 0xE2
        && b == 0x80
        && ((leb 0x80 c && leb c 0x8A) || c == 0xA8 || c == 0xA9 || c == 0xAF))
    || (a == 0xE2 && b == 0x81 && c == 0x9F)
    || (a == 0xE3 && b == 0x80 && c == 0x80)

-- the text without the white space before it
unfoldable trim_left : Text → Text
trim_left [] = []
trim_left (a ∷ []) = elim (space1 a) [ true ↦ [] | false ↦ a ∷ [] ]
trim_left (a ∷ b ∷ []) = elim (space1 a) [
  | true ↦ trim_left (b ∷ [])
  | false ↦ elim (space2 a b) [ true ↦ [] | false ↦ a ∷ b ∷ [] ]
]
trim_left (a ∷ b ∷ c ∷ s) = elim (space1 a) [
  | true ↦ trim_left (b ∷ c ∷ s)
  | false ↦ elim (space2 a b) [
    | true ↦ trim_left (c ∷ s)
    | false ↦ elim (space3 a b c) [ true ↦ trim_left s | false ↦ a ∷ b ∷ c ∷ s ]
  ]
]

-- the text up to the white space that ends it
unfoldable trim_right : Text → Text
unfolding trim_left
trim_right [] = []
trim_right (a ∷ s) = elim (is_empty (trim_left (a ∷ s))) [ true ↦ [] | false ↦ a ∷ trim_right s ]

-- strings.TrimSpace
unfoldable pub trim_space : Text → Text
unfolding trim_left trim_right
trim_space s = trim_right (trim_left s)

-- strings.SplitN(s, " ", 2), when it has two parts; `before` is what has been passed
unfoldable pub split_space : Text → Text → Option (Text × Text)
split_space before [] = none
split_space before (c ∷ s) = elim (c == 32) [
  | true ↦ some (before, s)
  | false ↦ split_space (before ++ c ∷ []) s
]

-- strings.HasPrefix
unfoldable pub has_prefix : Text → Text → Bool
has_prefix s [] = true
has_prefix [] (p ∷ pre) = false
has_prefix (c ∷ s) (p ∷ pre) = c == p && has_prefix s pre

-- strings.Contains
unfoldable pub contains : Text → Text → Bool
unfolding has_prefix
contains [] sub = has_prefix [] sub
contains (c ∷ s) sub = has_prefix (c ∷ s) sub || contains s sub

-- strings.Split at one character, in the piece `w`
unfoldable split_from : ℕ → Text → Text → List Text
split_from sep w [] = w ∷ []
split_from sep w (c ∷ s) = elim (c == sep) [
  | true ↦ w ∷ split_from sep [] s
  | false ↦ split_from sep (w ++ c ∷ []) s
]

unfoldable pub split : ℕ → Text → List Text
unfolding split_from
split sep s = split_from sep [] s

-- the order of sort.Strings
unfoldable pub text_le : Text → Text → Bool
text_le [] t = true
text_le (a ∷ s) [] = false
text_le (a ∷ s) (b ∷ t) = ltb a b || (a == b && text_le s t)

-- the first of strings.Fields, for a text with no white space before it
unfoldable pub first_word : Text → Text
unfolding trim_left
first_word [] = []
first_word (a ∷ s) =
    let rest = first_word s in
    if ltb (length (trim_left (a ∷ s))) (length (a ∷ s)) then [] else a ∷ rest

-- strings.ToLower as far as its result is ASCII: the letters A to Z, İ and the Kelvin sign; other
-- characters are kept, whose lower case is not ASCII either
unfoldable pub ascii_lower : Text → Text
ascii_lower [] = []
ascii_lower (a ∷ []) = (if leb b'A' a && leb a b'Z' then a + 32 else a) ∷ []
ascii_lower (a ∷ b ∷ []) = elim (a == 0xC4 && b == 0xB0) [
  | true ↦ b'i' ∷ []
  | false ↦ (if leb b'A' a && leb a b'Z' then a + 32 else a) ∷ ascii_lower (b ∷ [])
]
ascii_lower (a ∷ b ∷ c ∷ s) = elim (a == 0xC4 && b == 0xB0) [
  | true ↦ b'i' ∷ ascii_lower (c ∷ s)
  | false ↦ elim (a == 0xE2 && b == 0x84 && c == 0xAA) [
    | true ↦ b'k' ∷ ascii_lower s
    | false ↦ (if leb b'A' a && leb a b'Z' then a + 32 else a) ∷ ascii_lower (b ∷ c ∷ s)
  ]
]
