-- ===== src/Policy/Search/Normal.antt =====
-- internal/policy/search.go: `normalizeQuery` on its own result.
use web_scraper.Base.{
  ℕ, ◌-◌, ◌==◌, leb, ◌&&◌, ◌≤◌, ◌≡◌, refl, sym, ◌∙◌, ap, inl, inr, true, false, List, [], ◌∷◌, ◌++◌,
  is_empty, arith, map, All, All-append, Bool-cases, append_assoc, append-nil,
}
use web_scraper.Policy.Unicode.{Runes, is_space, is_format, end_word, fields_from, fields, join}
use web_scraper.Policy.Search.{is_forbidden, has_forbidden_characters, fold_width, normalize_query}

fields_from-char :
    (v : Runes) (c : ℕ) (s : Runes)
    → is_space c ≡ false
    → fields_from v (c ∷ s) ≡ fields_from (v ++ c ∷ []) s
unfolding fields_from
fields_from-char v c s h = rw (fields_from, h) refl

fields_from-stop :
    (v : Runes) (c : ℕ) (s : Runes)
    → is_space c ≡ true
    → fields_from v (c ∷ s) ≡ end_word v (fields_from [] s)
unfolding fields_from
fields_from-stop v c s h = rw (fields_from, h) refl

fields_from-nil : (w : Runes) → fields_from w [] ≡ end_word w []
unfolding fields_from
fields_from-nil w = refl

module _ (P : ℕ → Type 0) where
  All-end_word :
      (w : Runes) (ws : List Runes) → All P w → All (All P) ws → All (All P) (end_word w ws)
  All-end_word [] ws h hs = hs
  All-end_word (c ∷ w) ws h hs = (h, hs)

  All-fields_from : (w s : Runes) → All P w → All P s → All (All P) (fields_from w s)
  All-fields_from w [] hw hs = rw (fields_from-nil w) (All-end_word w [] hw tt)
  All-fields_from w (c ∷ s) hw (hc, hs) = elim (Bool-cases (is_space c)) [
    | inl e ↦
        rw (fields_from-stop w c s e)
          (All-end_word w (fields_from [] s) hw (All-fields_from [] s tt hs))
    | inr e ↦
        rw (fields_from-char w c s e)
          (All-fields_from (w ++ c ∷ []) s (All-append P w (c ∷ []) hw (hc, tt)) hs)
  ]

  All-join : P 0x20 → (ws : List Runes) → All (All P) ws → All P (join ws)
  unfolding join
  All-join space [] h = tt
  All-join space (w ∷ []) (h, _) = h
  All-join space (w ∷ v ∷ ws) (h, hs) =
      All-append P w (0x20 ∷ join (v ∷ ws)) h (space, All-join space (v ∷ ws) hs)

-- a word: at least one character, and no white space
abbrev IsWord : Runes → Type 0
IsWord w = (is_empty w ≡ false) × All (λ c. is_space c ≡ false) w

end_word-IsWord :
    (w : Runes) (ws : List Runes)
    → All (λ c. is_space c ≡ false) w
    → All IsWord ws
    → All IsWord (end_word w ws)
end_word-IsWord [] ws h hs = hs
end_word-IsWord (c ∷ w) ws h hs = ((refl, h), hs)

fields_from-IsWord : (w s : Runes) → All (λ c. is_space c ≡ false) w → All IsWord (fields_from w s)
fields_from-IsWord w [] h = rw (fields_from-nil w) (end_word-IsWord w [] h tt)
fields_from-IsWord w (c ∷ s) h = elim (Bool-cases (is_space c)) [
  | inl e ↦
      rw (fields_from-stop w c s e)
        (end_word-IsWord w (fields_from [] s) h (fields_from-IsWord [] s tt))
  | inr e ↦ rw (fields_from-char w c s e) (
      fields_from-IsWord (w ++ c ∷ []) s
        (All-append (λ x. is_space x ≡ false) w (c ∷ []) h (e, tt)))
]

-- a scan passes over a word
fields_from-append :
    (v w s : Runes)
    → All (λ c. is_space c ≡ false) w
    → fields_from v (w ++ s) ≡ fields_from (v ++ w) s
fields_from-append v [] s h = rw (append-nil v) refl
fields_from-append v (c ∷ w) s (hc, h) =
    fields_from-char v c (w ++ s) hc
    ∙ fields_from-append (v ++ c ∷ []) w s h
    ∙ ap (λ (x : Runes). fields_from x s) (append_assoc v (c ∷ []) w)

end_word_eq : (w : Runes) (ws : List Runes) → is_empty w ≡ false → end_word w ws ≡ w ∷ ws
end_word_eq [] ws h = cc
end_word_eq (c ∷ w) ws h = refl

fields-join : (ws : List Runes) → All IsWord ws → fields_from [] (join ws) ≡ ws
unfolding join
fields-join [] h = fields_from-nil []
fields-join (w ∷ []) ((e, h), _) =
    ap (λ (x : Runes). fields_from [] x) (sym (append-nil w))
    ∙ fields_from-append [] w [] h
    ∙ fields_from-nil w
    ∙ end_word_eq w [] e
fields-join (w ∷ v ∷ ws) ((e, h), hs) =
    fields_from-append [] w (0x20 ∷ join (v ∷ ws)) h
    ∙ fields_from-stop w 0x20 (join (v ∷ ws)) (unfold is_space in refl)
    ∙ end_word_eq w (fields_from [] (join (v ∷ ws))) e
    ∙ ap (λ (x : List Runes). w ∷ x) (fields-join (v ∷ ws) hs)

-- what folding leaves: a character that folding keeps
abbrev IsFolded : ℕ → Type 0
IsFolded c = fold_width c ≡ c

fold_width-IsFolded : (c : ℕ) → IsFolded (fold_width c)
unfolding fold_width
fold_width-IsFolded c = ground arith

forbidden_blank : is_forbidden 0x20 ≡ false
unfolding is_forbidden is_format
forbidden_blank = refl

printable : (c : ℕ) → 0x20 ≤ c → c ≤ 0x7e → is_forbidden c ≡ false
unfolding is_forbidden is_format
printable c h k = ground arith

is_forbidden-fold_width : (c : ℕ) → is_forbidden c ≡ false → is_forbidden (fold_width c) ≡ false
unfolding fold_width
is_forbidden-fold_width c h = elim (Bool-cases (c == 0x3000)) [
  | inl e ↦ rw e (forbidden_blank)
  | inr e ↦ rw e (elim (Bool-cases (leb 0xff01 c && leb c 0xff5e)) [
    | inl k ↦ rw k (printable (c - 0xfee0) (ground arith) (ground arith))
    | inr k ↦ rw k h
  ])
]

All-map_fold : (s : Runes) → All IsFolded (map fold_width s)
All-map_fold [] = tt
All-map_fold (c ∷ s) = (fold_width-IsFolded c, All-map_fold s)

map_fold : (s : Runes) → All IsFolded s → map fold_width s ≡ s
map_fold [] h = refl
map_fold (c ∷ s) (e, h) = rw (e, map_fold s h) refl

normalize-IsFolded : (s : Runes) → All IsFolded (normalize_query s)
unfolding normalize_query fields fold_width
normalize-IsFolded s =
    All-join IsFolded refl (fields_from [] (map fold_width s))
      (All-fields_from IsFolded [] (map fold_width s) tt (All-map_fold s))

abbrev IsVisible : ℕ → Type 0
IsVisible c = is_forbidden c ≡ false

pub has_forbidden-All : (s : Runes) → has_forbidden_characters s ≡ false → All IsVisible s
unfolding has_forbidden_characters
has_forbidden-All [] h = tt
has_forbidden-All (c ∷ s) h = elim (Bool-cases (is_forbidden c)) [
  | inl e ↦ cc
  | inr e ↦ (e, has_forbidden-All s (rw e at h))
]

pub All-has_forbidden : (s : Runes) → All IsVisible s → has_forbidden_characters s ≡ false
unfolding has_forbidden_characters
All-has_forbidden [] h = refl
All-has_forbidden (c ∷ s) (e, h) = rw (e, All-has_forbidden s h) refl

map-IsVisible : (s : Runes) → All IsVisible s → All IsVisible (map fold_width s)
map-IsVisible [] h = tt
map-IsVisible (c ∷ s) (e, h) = (is_forbidden-fold_width c e, map-IsVisible s h)

pub normalize-IsVisible : (s : Runes) → All IsVisible s → All IsVisible (normalize_query s)
unfolding normalize_query fields
normalize-IsVisible s h =
    All-join IsVisible forbidden_blank (fields_from [] (map fold_width s))
      (All-fields_from IsVisible [] (map fold_width s) tt (map-IsVisible s h))

pub normalize_twice : (s : Runes) → normalize_query (normalize_query s) ≡ normalize_query s
unfolding normalize_query fields
normalize_twice s =
    ap (λ (x : Runes). join (fields_from [] x))
      (map_fold (normalize_query s) (normalize-IsFolded s))
    ∙ ap join (
        fields-join (fields_from [] (map fold_width s))
          (fields_from-IsWord [] (map fold_width s) tt))
