-- ===== src/Policy/Search/Found.antt =====
-- What the filter's pattern lists find.
use web_scraper.Base.{◌≡◌, refl, ◌↔◌, inl, inr, true, none, List, [], ◌∷◌, Among, Bool-cases}
use web_scraper.Policy.Regex.{Regex, Place, match_string}
use web_scraper.Policy.Regex.Matches.{Matches}
use web_scraper.Policy.Regex.Decides.{Later, match_string_iff}
use web_scraper.Policy.Unicode.{Runes}
use web_scraper.Policy.Search.{matches_any}

-- some part of the text matches the pattern
abbrev pub IsMatched : Regex → Runes → Type 0
IsMatched r s = (p : Place) × (q : Place) × Later (none, s) p × Matches r p q

matches_any-finds :
    (rs : List Regex) (s : Runes)
    → matches_any rs s ≡ true
    → (r : Regex) × Among r rs × IsMatched r s
unfolding matches_any
matches_any-finds [] s h = cc
matches_any-finds (r ∷ rs) s h = elim (Bool-cases (match_string r s)) [
  | inl e ↦ (r, inl refl, (match_string_iff r s).0 e)
  | inr e ↦ let (r', m, k) = matches_any-finds rs s (rw e at h) in (r', inr m, k)
]

finds-matches_any :
    (rs : List Regex) (s : Runes) (r : Regex) → Among r rs → IsMatched r s → matches_any rs s ≡ true
unfolding matches_any
finds-matches_any [] s r m h = elim m [ ]
finds-matches_any (x ∷ rs) s r (inl e) h = rw ((match_string_iff x s).1 (rw e h)) refl
finds-matches_any (x ∷ rs) s r (inr m) h = elim (Bool-cases (match_string x s)) [
  | inl e ↦ rw e refl
  | inr e ↦ rw e (finds-matches_any rs s r m h)
]

-- A list of patterns rejects a text exactly when some part of the text matches one of them, by the
-- rules of matching, which do not search: no match is missed, and none is made up.
pub matches_any_iff :
    (rs : List Regex) (s : Runes)
    → (matches_any rs s ≡ true) ↔ ((r : Regex) × Among r rs × IsMatched r s)
matches_any_iff rs s = (matches_any-finds rs s, λ (r, m, h). finds-matches_any rs s r m h)
