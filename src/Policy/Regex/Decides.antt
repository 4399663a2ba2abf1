-- ===== src/Policy/Regex/Decides.antt =====
-- The matcher against the relation of matches.
use web_scraper.Base.{
  ℕ, zero, suc, ◌≤◌, ◌<◌, ◌≡◌, ◌⊎◌, ◌↔◌, inl, inr, refl, sym, subst, Bool, true, false, Option,
  none, some, List, [], ◌∷◌, ◌++◌, Text, length, arith, Among, Among-append, Among-append_inv, ltb,
  lt→ltb, Bool-cases,
}
use web_scraper.Policy.Regex.{
  Regex, empty, one, seq, alt, star, word_boundary, text_start, text_end, Place, at_boundary,
  at_start, at_end, eat, stay_if, flat_map, beyond, repeat, ends, is_nonempty, search_from,
  match_string,
}
use web_scraper.Policy.Regex.Matches.{
  Matches, m_empty, m_one, m_seq, m_left, m_right, m_stop, m_more, m_boundary, m_start, m_end,
  moves_on,
}

Among-append_after : (xs ys : List Place) (a : Place) → Among a ys → Among a (xs ++ ys)
Among-append_after [] ys a m = m
Among-append_after (x ∷ xs) ys a m = inr (Among-append_after xs ys a m)

from_flat_map :
    (f : Place → List Place) (ps : List Place) (q : Place)
    → Among q (flat_map f ps)
    → (p : Place) × Among p ps × Among q (f p)
unfolding flat_map
from_flat_map f [] q m = elim m [ ]
from_flat_map f (p ∷ ps) q m = elim (Among-append_inv (f p) (flat_map f ps) q m) [
  | inl n ↦ (p, inl refl, n)
  | inr n ↦ let (p', k, l) = from_flat_map f ps q n in (p', inr k, l)
]

to_flat_map :
    (f : Place → List Place) (ps : List Place) (p q : Place)
    → Among p ps
    → Among q (f p)
    → Among q (flat_map f ps)
unfolding flat_map
to_flat_map f [] p q m n = elim m [ ]
to_flat_map f (x ∷ ps) p q (inl e) n = Among-append (f x) (flat_map f ps) q (rw e n)
to_flat_map f (x ∷ ps) p q (inr m) n =
    Among-append_after (f x) (flat_map f ps) q (to_flat_map f ps p q m n)

from_beyond : (n : ℕ) (ps : List Place) (q : Place) → Among q (beyond n ps) → Among q ps
unfolding beyond
from_beyond n [] q m = elim m [ ]
from_beyond n ((b, s) ∷ ps) q m = elim (Bool-cases (ltb (length s) n)) [
  | inl e ↦ elim (rw e at m) [ inl h ↦ inl h | inr k ↦ inr (from_beyond n ps q k) ]
  | inr e ↦ inr (from_beyond n ps q (rw e at m))
]

to_beyond :
    (n : ℕ) (ps : List Place) (q : Place) → Among q ps → length q.1 < n → Among q (beyond n ps)
unfolding beyond
to_beyond n [] q m h = elim m [ ]
to_beyond n ((b, s) ∷ ps) q (inl e) h =
    let l : length s < n = subst (λ (x : Place). length x.1 < n) (sym e) h in
    rw (lt→ltb (length s) n l) (inl e)
to_beyond n ((b, s) ∷ ps) q (inr m) h = elim (Bool-cases (ltb (length s) n)) [
  | inl e ↦ rw e (inr (to_beyond n ps q m h))
  | inr e ↦ rw e (to_beyond n ps q m h)
]

repeat-Matches :
    (r : Regex) (f : Place → List Place)
    → ((p q : Place) → Among q (f p) → Matches r p q)
    → (n : ℕ) (p q : Place) → Among q (repeat n f p)
    → Matches (star r) p q
unfolding repeat
repeat-Matches r f sound zero p q (inl e) = rw (← e) m_stop
repeat-Matches r f sound zero p q (inr m) = elim m [ ]
repeat-Matches r f sound (suc n) p q (inl e) = rw (← e) m_stop
repeat-Matches r f sound (suc n) p q (inr m) =
    let (u, k, l) = from_flat_map (repeat n f) (beyond (length p.1) (f p)) q m in
    m_more (sound p u (from_beyond _ (f p) u k)) (repeat-Matches r f sound n u q l)

stay-holds : (b : Bool) (p q : Place) → Among q (stay_if b p) → (b ≡ true) × (q ≡ p)
unfolding stay_if
stay-holds true p q (inl e) = (refl, sym e)
stay-holds true p q (inr m) = elim m [ ]
stay-holds false p q m = elim m [ ]

eat-Matches : (t : ℕ → Bool) (p q : Place) → Among q (eat t p) → Matches (one t) p q
unfolding eat
eat-Matches t (b, []) q m = elim m [ ]
eat-Matches t (b, c ∷ s) q m = elim (Bool-cases (t c)) [
  | inl e ↦ elim (rw e at m) [ inl h ↦ rw (← h) (m_one e) | inr k ↦ elim k [ ] ]
  | inr e ↦ elim (rw e at m) [ ]
]

-- Each place that the matcher gives is the end of a match.
ends-Matches : (r : Regex) (p q : Place) → Among q (ends r p) → Matches r p q
unfolding ends
ends-Matches empty p q (inl e) = rw (← e) m_empty
ends-Matches empty p q (inr m) = elim m [ ]
ends-Matches (one t) p q m = eat-Matches t p q m
ends-Matches (seq r s) p q m =
    let (u, k, l) = from_flat_map (ends s) (ends r p) q m in
    m_seq (ends-Matches r p u k) (ends-Matches s u q l)
ends-Matches (alt r s) p q m = elim (Among-append_inv (ends r p) (ends s p) q m) [
  | inl n ↦ m_left (ends-Matches r p q n)
  | inr n ↦ m_right (ends-Matches s p q n)
]
ends-Matches (star r) p q m = repeat-Matches r (ends r) (ends-Matches r) (length p.1) p q m
ends-Matches word_boundary p q m =
    let (h, e) = stay-holds (at_boundary p) p q m in rw e (m_boundary h)
ends-Matches text_start p q m = let (h, e) = stay-holds (at_start p) p q m in rw e (m_start h)
ends-Matches text_end p q m = let (h, e) = stay-holds (at_end p) p q m in rw e (m_end h)

-- what completeness says of each kind of regex: for a star, with any number of rounds that suffices
abbrev Found : Regex → Place → Place → Type 0
Found (star r) p q = (n : ℕ) → length p.1 ≤ n → Among q (repeat n (ends r) p)
Found empty p q = Among q (ends empty p)
Found (one t) p q = Among q (ends (one t) p)
Found (seq r s) p q = Among q (ends (seq r s) p)
Found (alt r s) p q = Among q (ends (alt r s) p)
Found word_boundary p q = Among q (ends word_boundary p)
Found text_start p q = Among q (ends text_start p)
Found text_end p q = Among q (ends text_end p)

Found-ends : (r : Regex) (p q : Place) → Found r p q → Among q (ends r p)
Found-ends (star r) p q h = unfold ends in h (length p.1) (omega arith)
Found-ends empty p q h = h
Found-ends (one t) p q h = h
Found-ends (seq r s) p q h = h
Found-ends (alt r s) p q h = h
Found-ends word_boundary p q h = h
Found-ends text_start p q h = h
Found-ends text_end p q h = h

stay-here : (b : Bool) (p : Place) → b ≡ true → Among p (stay_if b p)
unfolding stay_if
stay-here true p h = inl refl
stay-here false p h = cc

repeat-here : (n : ℕ) (f : Place → List Place) (p : Place) → Among p (repeat n f p)
unfolding repeat
repeat-here zero f p = inl refl
repeat-here (suc n) f p = inl refl

-- a round that moves on, and then the rest
repeat-more :
    (r : Regex) (p q u : Place) (n : ℕ)
    → Among q (ends r p)
    → length q.1 < length p.1
    → ((k : ℕ) → length q.1 ≤ k → Among u (repeat k (ends r) q))
    → length p.1 ≤ n
    → Among u (repeat n (ends r) p)
unfolding repeat
repeat-more r p q u zero m shorter rest h = absurd (omega arith)
repeat-more r p q u (suc n) m shorter rest h = inr (
    to_flat_map (repeat n (ends r)) (beyond (length p.1) (ends r p)) q u
      (to_beyond (length p.1) (ends r p) q m shorter) (rest n (omega arith)))

more-Found :
    (r : Regex) (p q u : Place)
    → (length q.1 < length p.1) ⊎ (q ≡ p)
    → Among q (ends r p)
    → Found (star r) q u
    → Found (star r) p u
more-Found r p q u (inl shorter) m rest = λ n h. repeat-more r p q u n m shorter rest h
more-Found r p q u (inr e) m rest = rw e at rest

Matches-Found : {r : Regex} {p q : Place} → Matches r p q → Found r p q
unfolding ends eat
Matches-Found m_empty = inl refl
Matches-Found (m_one h) = rw h (inl refl)
Matches-Found (m_seq {r} {s} {p} {q} {u} d e) =
    to_flat_map (ends s) (ends r p) q u (Found-ends r p q (Matches-Found d))
      (Found-ends s q u (Matches-Found e))
Matches-Found (m_left {r} {s} {p} {q} d) =
    Among-append (ends r p) (ends s p) q (Found-ends r p q (Matches-Found d))
Matches-Found (m_right {r} {s} {p} {q} d) =
    Among-append_after (ends r p) (ends s p) q (Found-ends s p q (Matches-Found d))
Matches-Found (m_stop {r} {p}) = λ n h. repeat-here n (ends r) p
Matches-Found (m_more {r} {p} {q} {u} d e) =
    more-Found r p q u (moves_on d) (Found-ends r p q (Matches-Found d)) (Matches-Found e)
Matches-Found (m_boundary {p} h) = stay-here (at_boundary p) p h
Matches-Found (m_start {p} h) = stay-here (at_start p) p h
Matches-Found (m_end {p} h) = stay-here (at_end p) p h

is_nonempty-Among : (ps : List Place) → is_nonempty ps ≡ true → (q : Place) × Among q ps
is_nonempty-Among [] h = cc
is_nonempty-Among (q ∷ ps) h = (q, inl refl)

Among-is_nonempty : (ps : List Place) (q : Place) → Among q ps → is_nonempty ps ≡ true
Among-is_nonempty [] q m = elim m [ ]
Among-is_nonempty (p ∷ ps) q m = refl

-- The places of a text from a place on.
pub data Later : Place → Place → Type 0 where
  here : {p : Place} → Later p p
  further : {b : Option ℕ} {c : ℕ} {s : Text} {q : Place} → Later (some c, s) q → Later (b, c ∷ s) q

search_from-finds :
    (r : Regex) (b : Option ℕ) (s : Text)
    → search_from r b s ≡ true
    → (p : Place) × (q : Place) × Later (b, s) p × Matches r p q
unfolding search_from
search_from-finds r b [] h =
    let (q, m) = is_nonempty-Among (ends r (b, [])) h in
    ((b, []), q, here, ends-Matches r (b, []) q m)
search_from-finds r b (c ∷ s) h = elim (Bool-cases (is_nonempty (ends r (b, c ∷ s)))) [
  | inl e ↦
      let (q, m) = is_nonempty-Among (ends r (b, c ∷ s)) e in
      ((b, c ∷ s), q, here, ends-Matches r (b, c ∷ s) q m)
  | inr e ↦ let (p, q, l, d) = search_from-finds r (some c) s (rw e at h) in (p, q, further l, d)
]

found_here : (r : Regex) (p q : Place) → Matches r p q → is_nonempty (ends r p) ≡ true
found_here r p q d = Among-is_nonempty (ends r p) q (Found-ends r p q (Matches-Found d))

search_from-here :
    (r : Regex) (b : Option ℕ) (s : Text)
    → is_nonempty (ends r (b, s)) ≡ true
    → search_from r b s ≡ true
unfolding search_from
search_from-here r b [] h = h
search_from-here r b (c ∷ s) h = rw h refl

search_from-later :
    (r : Regex) (b : Option ℕ) (c : ℕ) (s : Text)
    → search_from r (some c) s ≡ true
    → search_from r b (c ∷ s) ≡ true
unfolding search_from
search_from-later r b c s h = elim (Bool-cases (is_nonempty (ends r (b, c ∷ s)))) [
  | inl e ↦ rw e refl
  | inr e ↦ rw e h
]

finds-search_from :
    (r : Regex) {p₀ p : Place} (q : Place)
    → Later p₀ p
    → Matches r p q
    → search_from r p₀.0 p₀.1 ≡ true
finds-search_from r {p₀} q here d = search_from-here r p₀.0 p₀.1 (found_here r p₀ q d)
finds-search_from r q (further {b} {c} {s} l) d =
    search_from-later r b c s (finds-search_from r q l d)

-- `MatchString` answers true exactly when some part of the text matches: the matcher needs no fuel,
-- and neither misses a match nor makes one up.
pub match_string_iff :
    (r : Regex) (s : Text)
    → (match_string r s ≡ true) ↔ ((p : Place) × (q : Place) × Later (none, s) p × Matches r p q)
unfolding match_string
match_string_iff r s = (search_from-finds r none s, λ (p, q, l, d). finds-search_from r q l d)
