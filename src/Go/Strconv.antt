-- ===== src/Go/Strconv.antt =====
-- The package strconv.
pub mod Decimal
use web_scraper.Base.Int.{ℤ, pos, negsuc}
use web_scraper.Base.{
  ℕ, suc, zero, ◌/◌, ◌%◌, ◌++◌, ◌+◌, ◌-◌, ◌*◌, Bool, true, false, not, min, ◌&&◌, Option, none,
  some, [], ◌∷◌, Text, ltb, leb, ◌==◌, if◌then◌else◌,
}

abbrev is_digit : ℕ → Bool
is_digit c = leb b'0' c && leb c b'9'

-- the digits of `strconv.Atoi`; its range check is made on the whole value
digits : ℕ → Text → Option ℕ
digits n [] = some n
digits n (c ∷ s) = elim (is_digit c) [ true ↦ digits (n * 10 + (c - b'0')) s | false ↦ none ]

abbrev nonempty_digits : Text → Option ℕ
nonempty_digits [] = none
nonempty_digits (c ∷ s) = digits 0 (c ∷ s)

abbrev int64_limit : ℕ
int64_limit = 9223372036854775808

abbrev uint64_limit : ℕ
uint64_limit = 18446744073709551616

abbrev in_range : Bool → Option ℕ → Option ℤ
in_range negative none = none
in_range false (some n) = if ltb n int64_limit then some (pos n) else none
in_range true (some zero) = some (pos 0)
in_range true (some (suc n)) = if ltb n int64_limit then some (negsuc n) else none

-- strconv.Atoi
unfoldable pub atoi : Text → Option ℤ
unfolding digits
atoi [] = none
atoi (c ∷ s) =
    if c == b'-'
    then in_range true (nonempty_digits s)
    else if c == b'+'
    then in_range false (nonempty_digits s)
    else in_range false (digits 0 (c ∷ s))

-- the digits as `strconv.ParseUint` scans them: it stops at the first that passes 64 bits
scan : ℕ → Text → Option ℕ
scan n [] = some n
scan n (c ∷ s) =
    let next = n * 10 + (c - b'0') in
    let rest = scan next s in
    if not (is_digit c) then none else if ltb next uint64_limit then rest else some next

abbrev scanned : Text → Option ℕ
scanned [] = none
scanned (c ∷ s) = scan 0 (c ∷ s)

abbrev clamped : Bool → Option ℕ → ℤ
clamped negative none = pos 0
clamped false (some n) = pos (min n (int64_limit - 1))
clamped true (some zero) = pos 0
clamped true (some (suc n)) = negsuc (min n (int64_limit - 1))

-- the number that strconv.Atoi returns, whatever its error: 0 for a text that is no number, and the
-- nearest number for one out of range
unfoldable pub atoi_value : Text → ℤ
unfolding scan
atoi_value [] = pos 0
atoi_value (c ∷ s) =
    if c == b'-'
    then clamped true (scanned s)
    else if c == b'+'
    then clamped false (scanned s)
    else clamped false (scanned (c ∷ s))

-- the decimal digits, for fuel that is at least the number
unfoldable pub decimal : ℕ → ℕ → Text
decimal zero n = (b'0' + n % 10) ∷ []
decimal (suc fuel) n =
    let tens = decimal fuel (n / 10) in
    if ltb n 10 then (b'0' + n) ∷ [] else tens ++ (b'0' + n % 10) ∷ []
