-- ===== src/Policy/Regex.antt =====
-- The regular expressions of the policy, as the package regexp reads them, and a matcher for
-- `MatchString`, which asks only whether some part of the text matches. A place in a text is the
-- character before it and the text after it: that is what \b, ^ and $ look at.
pub mod Matches
pub mod Decides
use web_scraper.Base.{
  ℕ, zero, suc, ◌+◌, Bool, true, false, not, ◌&&◌, ◌||◌, Option, none, some, List, [], ◌∷◌, ◌++◌,
  Text, length, ltb, leb, ◌==◌, if◌then◌else◌,
}

pub data Regex : Type 0 where
  empty : Regex
  one : (ℕ → Bool) → Regex
  seq alt : Regex → Regex → Regex
  star : Regex → Regex
  word_boundary text_start text_end : Regex

abbrev pub Place : Type 0
Place = Option ℕ × Text

-- ASCII letters, digits and _
unfoldable pub is_word : ℕ → Bool
is_word c =
    (leb b'0' c && leb c b'9')
    || ((leb b'A' c && leb c b'Z') || (c == b'_' || (leb b'a' c && leb c b'z')))

abbrev word_before : Option ℕ → Bool
word_before none = false
word_before (some c) = is_word c

abbrev word_after : Text → Bool
word_after [] = false
word_after (c ∷ _) = is_word c

abbrev xor : Bool → Bool → Bool
xor true b = not b
xor false b = b

unfoldable pub at_boundary : Place → Bool
unfolding is_word
at_boundary (b, s) = xor (word_before b) (word_after s)

unfoldable pub at_start : Place → Bool
at_start (none, s) = true
at_start (some c, s) = false

unfoldable pub at_end : Place → Bool
at_end (b, []) = true
at_end (b, c ∷ s) = false

-- the place after one character that passes the test
unfoldable pub eat : (ℕ → Bool) → Place → List Place
eat t (b, []) = []
eat t (b, c ∷ s) = if t c then (some c, s) ∷ [] else []

unfoldable pub stay_if : Bool → Place → List Place
stay_if true p = p ∷ []
stay_if false p = []

unfoldable pub flat_map : (Place → List Place) → List Place → List Place
flat_map f [] = []
flat_map f (p ∷ ps) = f p ++ flat_map f ps

-- the places that are further on in the text
unfoldable pub beyond : ℕ → List Place → List Place
beyond n [] = []
beyond n ((b, s) ∷ ps) = let rest = beyond n ps in if ltb (length s) n then (b, s) ∷ rest else rest

-- zero or more rounds of `f`, each of which moves on
unfoldable pub repeat : ℕ → (Place → List Place) → Place → List Place
unfolding flat_map beyond
repeat zero f p = p ∷ []
repeat (suc n) f p = p ∷ flat_map (repeat n f) (beyond (length p.1) (f p))

-- every place at which a match that begins here can end
unfoldable pub ends : Regex → Place → List Place
unfolding eat stay_if at_boundary at_start at_end flat_map repeat
ends empty p = p ∷ []
ends (one t) p = eat t p
ends (seq r s) p = flat_map (ends s) (ends r p)
ends (alt r s) p = ends r p ++ ends s p
ends (star r) p = repeat (length p.1) (ends r) p
ends word_boundary p = stay_if (at_boundary p) p
ends text_start p = stay_if (at_start p) p
ends text_end p = stay_if (at_end p) p

abbrev is_nonempty : List Place → Bool
is_nonempty [] = false
is_nonempty (_ ∷ _) = true

unfoldable pub search_from : Regex → Option ℕ → Text → Bool
unfolding ends
search_from r b [] = is_nonempty (ends r (b, []))
search_from r b (c ∷ s) = is_nonempty (ends r (b, c ∷ s)) || search_from r (some c) s

-- MatchString
unfoldable pub match_string : Regex → Text → Bool
unfolding search_from
match_string r s = search_from r none s
