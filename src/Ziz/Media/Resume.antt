-- ===== src/Ziz/Media/Resume.antt =====
-- What a resumed download knows of the earlier ones.
use web_scraper.Base.{
  sym, subst, text_eq_iff, ◌≡◌, ◌≢◌, ◌↔◌, ◌⊎◌, Empty, refl, ◌∙◌, ap, inl, inr, Bool, true, false,
  Option, none, some, List, [], ◌∷◌, Text, text_eq, is_empty, if◌then◌else◌, Bool-cases,
}
use web_scraper.Base.Dict.{lookup, lookup-insert}
use web_scraper.Ziz.Media.{
  downloaded, skipped, failed, MediaStatus, is_done, MediaRecord, done_record, put, load_lines,
  load_media_manifest, scanned,
}

abbrev line_record : (Text → Option MediaRecord) → Text → Option MediaRecord
line_record unmarshal line = if is_empty line then none else done_record (unmarshal line)

-- the record of a URL on a line
abbrev for_url : Text → Option MediaRecord → Option MediaRecord
for_url url none = none
for_url url (some r) = if text_eq r.url url then some r else none

abbrev or_record : Option MediaRecord → Option MediaRecord → Option MediaRecord
or_record none b = b
or_record (some a) b = some a

-- the record on the last line that has one for the URL
abbrev last_for : (Text → Option MediaRecord) → Text → List Text → Option MediaRecord
last_for unmarshal url [] = none
last_for unmarshal url (line ∷ lines) =
    or_record (last_for unmarshal url lines) (for_url url (line_record unmarshal line))

lookup-put :
    (url : Text) (o : Option MediaRecord) (out : List (Text × MediaRecord))
    → lookup url (put o out) ≡ or_record (for_url url o) (lookup url out)
lookup-put url none out = refl
lookup-put url (some r) out = lookup-insert r.url url r out ∙ by_test (text_eq r.url url)
  where
    by_test :
        (b : Bool)
        → (if b then some r else lookup url out)
          ≡ or_record (if b then some r else none) (lookup url out)
    by_test true = refl
    by_test false = refl

or_record_assoc :
    (a b c : Option MediaRecord) → or_record a (or_record b c) ≡ or_record (or_record a b) c
or_record_assoc none b c = refl
or_record_assoc (some r) b c = refl

lookup-line :
    (unmarshal : Text → Option MediaRecord) (url line : Text) (out : List (Text × MediaRecord))
    → lookup url (if is_empty line then out else put (done_record (unmarshal line)) out)
      ≡ or_record (for_url url (line_record unmarshal line)) (lookup url out)
lookup-line unmarshal url line out = elim (Bool-cases (is_empty line)) [
  | inl e ↦ rw e refl
  | inr e ↦ rw e (lookup-put url (done_record (unmarshal line)) out)
]

lookup-load_lines :
    (unmarshal : Text → Option MediaRecord) (url : Text) (lines : List Text)
    (out : List (Text × MediaRecord))
    → lookup url (load_lines unmarshal lines out)
      ≡ or_record (last_for unmarshal url lines) (lookup url out)
unfolding load_lines
lookup-load_lines unmarshal url [] out = refl
lookup-load_lines unmarshal url (line ∷ lines) out =
    lookup-load_lines unmarshal url lines _
    ∙ ap (or_record (last_for unmarshal url lines)) (lookup-line unmarshal url line out)
    ∙ or_record_assoc (last_for unmarshal url lines) _ (lookup url out)

or_record-none : (a : Option MediaRecord) → or_record a none ≡ a
or_record-none none = refl
or_record-none (some r) = refl

-- The line is the record of a file of the URL that is there: it is not empty and holds this record,
-- with this URL, which is not empty, and the status downloaded or skipped.
abbrev pub Stands : (Text → Option MediaRecord) → Text → Text → MediaRecord → Type 0
Stands unmarshal url line r =
    (line ≢ [])
    × (unmarshal line ≡ some r)
    × (r.url ≡ url)
    × (url ≢ [])
    × ((r.status ≡ downloaded) ⊎ (r.status ≡ skipped))

-- The record is that of the last line that is one of the URL.
abbrev pub IsLastFor : (Text → Option MediaRecord) → Text → List Text → MediaRecord → Type 0
IsLastFor unmarshal url [] r = Empty
IsLastFor unmarshal url (line ∷ lines) r =
    IsLastFor unmarshal url lines r
    ⊎ (Stands unmarshal url line r × ((x : MediaRecord) → ¬ IsLastFor unmarshal url lines x))

not_there : (r : MediaRecord) → ¬ (◌≡◌ {A = Option MediaRecord} none (some r))
not_there r e = cc

unsome : {a b : MediaRecord} → some a ≡ some b → a ≡ b
unsome e = cc

empty_iff : (t : Text) → (is_empty t ≡ false) ↔ (t ≢ [])
empty_iff [] = (λ e. cc, λ n. absurd (n refl))
empty_iff (c ∷ t) = (λ _ e. cc, λ _. refl)

is_done_iff : (m : MediaStatus) → (is_done m ≡ true) ↔ ((m ≡ downloaded) ⊎ (m ≡ skipped))
is_done_iff downloaded = (λ _. inl refl, λ _. refl)
is_done_iff skipped = (λ _. inr refl, λ _. refl)
is_done_iff failed = (λ e. cc, λ h. elim h [ inl e ↦ cc | inr e ↦ cc ])

-- a record that passes the tests of `done_record` and is for the URL
done_there :
    (q : MediaRecord) (url : Text) (r : MediaRecord)
    → for_url url (done_record (some q)) ≡ some r
    → (some q ≡ some r)
      × (r.url ≡ url)
      × (url ≢ [])
      × ((r.status ≡ downloaded) ⊎ (r.status ≡ skipped))
unfolding done_record
done_there q url r h = elim (Bool-cases (is_empty q.url)) [
  | inl e ↦ absurd (not_there r (rw (e, done_record) at h))
  | inr e ↦ elim (Bool-cases (is_done q.status)) [
    | inr f ↦ absurd (not_there r (rw f at (rw e at h)))
    | inl f ↦ elim (Bool-cases (text_eq q.url url)) [
      | inr g ↦ absurd (not_there r (rw g at (rw f at (rw e at h))))
      | inl g ↦
          let same : q.url ≡ url = (text_eq_iff q.url url).0 g in
          subst
            (λ (x : MediaRecord).
              (some q ≡ some x)
              × (x.url ≡ url)
              × (url ≢ [])
              × ((x.status ≡ downloaded) ⊎ (x.status ≡ skipped)))
            (unsome (rw g at (rw f at (rw e at h))))
            (refl, same, λ n. (empty_iff q.url).0 e (same ∙ n), (is_done_iff q.status).0 f)
    ]
  ]
]

done_back :
    (o : Option MediaRecord) (url : Text) (r : MediaRecord)
    → o ≡ some r
    → r.url ≡ url
    → url ≢ []
    → (r.status ≡ downloaded) ⊎ (r.status ≡ skipped)
    → for_url url (done_record o) ≡ some r
unfolding done_record
done_back o url r e u n d = rw e (
    rw
      (
        (empty_iff r.url).1 (λ z. n (sym u ∙ z)),
        (is_done_iff r.status).1 d,
        (text_eq_iff r.url url).1 u,
      )
      refl)

done_iff :
    (o : Option MediaRecord) (url : Text) (r : MediaRecord)
    → (for_url url (done_record o) ≡ some r) ↔ (
        (o ≡ some r)
        × (r.url ≡ url)
        × (url ≢ [])
        × ((r.status ≡ downloaded) ⊎ (r.status ≡ skipped)))
unfolding done_record
done_iff none url r = (λ e. cc, λ h. absurd (not_there r h.0))
done_iff (some q) url r = (done_there q url r, λ h. done_back (some q) url r h.0 h.1 h.2 h.3)

for_url_iff :
    (unmarshal : Text → Option MediaRecord) (url line : Text) (r : MediaRecord)
    → (for_url url (line_record unmarshal line) ≡ some r) ↔ Stands unmarshal url line r
for_url_iff unmarshal url [] r = (λ e. cc, λ h. absurd (h.0 refl))
for_url_iff unmarshal url (c ∷ line) r =
    let (there, back) = done_iff (unmarshal (c ∷ line)) url r in
    (λ e. let (a, b, n, d) = there e in (λ q. cc, a, b, n, d), λ h. back (h.1, h.2, h.3, h.4))

or_record_iff :
    (a b : Option MediaRecord) (P Q : MediaRecord → Type 0)
    → ((x : MediaRecord) → (a ≡ some x) ↔ P x)
    → ((x : MediaRecord) → (b ≡ some x) ↔ Q x)
    → (r : MediaRecord) → (or_record a b ≡ some r) ↔ (P r ⊎ (Q r × ((x : MediaRecord) → ¬ P x)))
or_record_iff none b P Q f g r = (
  λ e. inr ((g r).0 e, λ x p. not_there x ((f x).1 p)),
  λ h. elim h [ inl p ↦ absurd (not_there r ((f r).1 p)) | inr (q, _) ↦ (g r).1 q ],
)
or_record_iff (some a) b P Q f g r = (
  λ e. inl ((f r).0 e),
  λ h. elim h [ inl p ↦ (f r).1 p | inr (_, n) ↦ absurd (n a ((f a).0 refl)) ],
)

last_for_iff :
    (unmarshal : Text → Option MediaRecord) (url : Text) (lines : List Text) (r : MediaRecord)
    → (last_for unmarshal url lines ≡ some r) ↔ IsLastFor unmarshal url lines r
last_for_iff unmarshal url [] r = (λ e. cc, λ h. elim h [ ])
last_for_iff unmarshal url (line ∷ lines) r =
    or_record_iff (last_for unmarshal url lines) _ (IsLastFor unmarshal url lines)
      (Stands unmarshal url line) (last_for_iff unmarshal url lines)
      (for_url_iff unmarshal url line) r

-- A manifest that is read to its end gives, for each URL, the record on the last line that stands
-- for a file of that URL: a record with a URL and with the status downloaded or skipped. It gives
-- none where there is no such line: lines that are empty or no JSON, and records of failures, count
-- for nothing, whatever precedes and follows them.
pub load_media_manifest-last :
    (unmarshal : Text → Option MediaRecord) (lines : List Text) (url : Text)
    → (out : List (Text × MediaRecord)) × (load_media_manifest unmarshal (scanned lines true)
        ≡ some out)
      × ((r : MediaRecord) → (lookup url out ≡ some r) ↔ IsLastFor unmarshal url lines r)
unfolding load_media_manifest lookup
load_media_manifest-last unmarshal lines url = (
  load_lines unmarshal lines [],
  refl,
  λ r.
      rw (lookup-load_lines unmarshal url lines [] ∙ or_record-none _)
        (last_for_iff unmarshal url lines r),
)
