-- ===== src/Policy/Unicode.antt =====
-- What internal/policy/search.go uses of the packages unicode/utf8, unicode and strings: a string
-- as its runes, white space, the category Cf of Unicode 15, and the fields of a string.
use web_scraper.Base.{
  ℕ, zero, suc, ◌+◌, ◌-◌, ◌*◌, Bool, true, false, ◌&&◌, ◌||◌, Option, none, some, List, [], ◌∷◌,
  ◌++◌, ◌/◌, ◌%◌, Text, leb, ltb, ◌==◌, if◌then◌else◌,
}

-- A string's runes. It has the same shape as its bytes.
abbrev pub Runes : Type 0
Runes = List ℕ

-- What the first byte of a rune says: the rune itself; or the number of bytes that follow, the bits
-- so far, and the range of the second byte.
pub data Lead : Type 0 where
  ascii bad : Lead
  more : ℕ → ℕ → ℕ → ℕ → Lead

unfoldable lead : ℕ → Lead
lead c =
    if ltb c 0x80
    then ascii
    else if ltb c 0xC2
    then bad
    else if ltb c 0xE0
    then more 1 (c - 0xC0) 0x80 0xBF
    else if c == 0xE0
    then more 2 0 0xA0 0xBF
    else if c == 0xED
    then more 2 0xD 0x80 0x9F
    else if ltb c 0xF0
    then more 2 (c - 0xE0) 0x80 0xBF
    else if c == 0xF0
    then more 3 0 0x90 0xBF
    else if ltb c 0xF4
    then more 3 (c - 0xF0) 0x80 0xBF
    else if c == 0xF4
    then more 3 4 0x80 0x8F
    else bad

abbrev cons_some : ℕ → Option Runes → Option Runes
cons_some r none = none
cons_some r (some rs) = some (r ∷ rs)

unfoldable decode_from : ℕ → ℕ → ℕ → ℕ → Text → Option Runes
unfolding lead
decode_from zero v lo hi [] = some []
decode_from (suc m) v lo hi [] = none
decode_from zero v lo hi (c ∷ s) = elim (lead c) [
  | ascii ↦ cons_some c (decode_from 0 0 0 0 s)
  | bad ↦ none
  | more m v' lo' hi' ↦ decode_from m v' lo' hi' s
]
decode_from (suc m) v lo hi (c ∷ s) = elim (leb lo c && leb c hi) [
  | false ↦ none
  | true ↦ elim m [
    | zero ↦ cons_some (v * 64 + (c - 0x80)) (decode_from 0 0 0 0 s)
    | suc k ↦ decode_from (suc k) (v * 64 + (c - 0x80)) 0x80 0xBF s
  ]
]

-- The runes of a valid UTF-8 text; `none` is `!utf8.ValidString`.
unfoldable pub decode : Text → Option Runes
unfolding decode_from
decode s = decode_from 0 0 0 0 s

-- unicode.IsSpace
unfoldable pub is_space : ℕ → Bool
is_space c =
    (leb 9 c && leb c 13)
    || c == 0x20
    || c == 0x85
    || c == 0xA0
    || c == 0x1680
    || (leb 0x2000 c && leb c 0x200A)
    || c == 0x2028
    || c == 0x2029
    || c == 0x202F
    || c == 0x205F
    || c == 0x3000

abbrev within : List (ℕ × ℕ) → ℕ → Bool
within [] c = false
within ((lo, hi) ∷ rs) c = (leb lo c && leb c hi) || within rs c

-- unicode.Cf
unfoldable pub is_format : ℕ → Bool
is_format = within (
    (0xAD, 0xAD)
    ∷ (0x600, 0x605)
    ∷ (0x61C, 0x61C)
    ∷ (0x6DD, 0x6DD)
    ∷ (0x70F, 0x70F)
    ∷ (0x890, 0x891)
    ∷ (0x8E2, 0x8E2)
    ∷ (0x180E, 0x180E)
    ∷ (0x200B, 0x200F)
    ∷ (0x202A, 0x202E)
    ∷ (0x2060, 0x2064)
    ∷ (0x2066, 0x206F)
    ∷ (0xFEFF, 0xFEFF)
    ∷ (0xFFF9, 0xFFFB)
    ∷ (0x110BD, 0x110BD)
    ∷ (0x110CD, 0x110CD)
    ∷ (0x13430, 0x1343F)
    ∷ (0x1BCA0, 0x1BCA3)
    ∷ (0x1D173, 0x1D17A)
    ∷ (0xE0001, 0xE0001)
    ∷ (0xE0020, 0xE007F)
    ∷ [])

-- the word that a scan is in, if it is in one, before the words that follow
abbrev pub end_word : Runes → List Runes → List Runes
end_word [] ws = ws
end_word (c ∷ w) ws = (c ∷ w) ∷ ws

-- strings.Fields, in the word `w`
unfoldable pub fields_from : Runes → Runes → List Runes
fields_from w [] = end_word w []
fields_from w (c ∷ s) = elim (is_space c) [
  | true ↦ end_word w (fields_from [] s)
  | false ↦ fields_from (w ++ c ∷ []) s
]

unfoldable pub fields : Runes → List Runes
unfolding fields_from
fields s = fields_from [] s

-- strings.Join with " "
unfoldable pub join : List Runes → Runes
join [] = []
join (w ∷ []) = w
join (w ∷ v ∷ ws) = w ++ 0x20 ∷ join (v ∷ ws)

-- string(rune)
abbrev encode_rune : ℕ → Text
encode_rune r =
    if ltb r 0x80
    then r ∷ []
    else if ltb r 0x800
    then (0xC0 + r / 64) ∷ (0x80 + r % 64) ∷ []
    else if ltb r 0x10000
    then (0xE0 + r / 4096) ∷ (0x80 + r / 64 % 64) ∷ (0x80 + r % 64) ∷ []
    else (0xF0 + r / 262144) ∷ (0x80 + r / 4096 % 64) ∷ (0x80 + r / 64 % 64) ∷ (0x80 + r % 64) ∷ []

-- the bytes of runes that are valid
unfoldable pub encode : Runes → Text
encode [] = []
encode (r ∷ rs) = encode_rune r ++ encode rs
