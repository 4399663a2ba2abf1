-- ===== src/Policy/Regex/Matches.antt =====
-- What it means for a part of a text to match, with no search in it.
use web_scraper.Base.{
  ℕ, ◌<◌, ◌≡◌, ◌⊎◌, inl, inr, refl, ◌∙◌, Bool, true, Option, some, ◌∷◌, Text, length, arith,
}
use web_scraper.Policy.Regex.{
  Regex, empty, one, seq, alt, star, word_boundary, text_start, text_end, Place, at_boundary,
  at_start, at_end,
}

-- A match of the regex that begins at the first place and ends at the second.
pub data Matches : Regex → Place → Place → Type 0 where
  m_empty : {p : Place} → Matches empty p p
  m_one :
      {t : ℕ → Bool} {b : Option ℕ} {c : ℕ} {s : Text}
      → t c ≡ true
      → Matches (one t) (b, c ∷ s) (some c, s)
  m_seq : {r s : Regex} {p q u : Place} → Matches r p q → Matches s q u → Matches (seq r s) p u
  m_left : {r s : Regex} {p q : Place} → Matches r p q → Matches (alt r s) p q
  m_right : {r s : Regex} {p q : Place} → Matches s p q → Matches (alt r s) p q
  m_stop : {r : Regex} {p : Place} → Matches (star r) p p
  m_more : {r : Regex} {p q u : Place} → Matches r p q → Matches (star r) q u → Matches (star r) p u
  m_boundary : {p : Place} → at_boundary p ≡ true → Matches word_boundary p p
  m_start : {p : Place} → at_start p ≡ true → Matches text_start p p
  m_end : {p : Place} → at_end p ≡ true → Matches text_end p p

moves_on_both :
    {p q u : Place}
    → (length q.1 < length p.1) ⊎ (q ≡ p)
    → (length u.1 < length q.1) ⊎ (u ≡ q)
    → (length u.1 < length p.1) ⊎ (u ≡ p)
moves_on_both (inl a) (inl b) = inl (omega arith)
moves_on_both (inl a) (inr e) = inl (rw e a)
moves_on_both (inr d) (inl b) = inl (rw (← d) b)
moves_on_both (inr d) (inr e) = inr (e ∙ d)

-- A match moves on in the text, or stays where it is.
pub moves_on : {r : Regex} {p q : Place} → Matches r p q → (length q.1 < length p.1) ⊎ (q ≡ p)
moves_on m_empty = inr refl
moves_on (m_one h) = inl (omega arith)
moves_on (m_seq d e) = moves_on_both (moves_on d) (moves_on e)
moves_on (m_left d) = moves_on d
moves_on (m_right d) = moves_on d
moves_on m_stop = inr refl
moves_on (m_more d e) = moves_on_both (moves_on d) (moves_on e)
moves_on (m_boundary h) = inr refl
moves_on (m_start h) = inr refl
moves_on (m_end h) = inr refl
