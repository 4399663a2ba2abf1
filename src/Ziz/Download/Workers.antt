-- ===== src/Ziz/Download/Workers.antt =====
-- Where the workers are, and the URLs that they have in hand.
use web_scraper.Base.{
  ℕ, zero, suc, ◌+◌, ◌<◌, ◌≡◌, ◌≢◌, refl, sym, ap, ◌∙◌, subst, ◌⊎◌, inl, inr, Bool, true, false,
  ◌||◌, Option, none, some, List, [], ◌∷◌, ◌++◌, Text, arith, get_elem?, set, All, Among,
  Among-append, Among-append_right, length,
}
use web_scraper.Base.Slots.{
  same_slot, get_elem?-set, get_elem?-set_ne, get_elem?-set_same, get_elem?-All,
}
use web_scraper.Ziz.Media.{MediaRecord, MediaStatus, downloaded, skipped, failed}
use web_scraper.Ziz.Download.{
  Task, waiting, gone, received, sending, Crew, is_cancelled, counted, idle_tasks,
}

pub ap_some : {A : Type 0} {a b : A} → some a ≡ some b → a ≡ b
ap_some h = cc

pub true_ne_false : true ≢ false
true_ne_false e = cc

-- The URL that a worker has in hand, as such or in a record.
abbrev pub url_in_hand : Task → Option Text
url_in_hand waiting = none
url_in_hand gone = none
url_in_hand (received url) = some url
url_in_hand (sending r) = some r.url

-- A URL that is not counted yet.
abbrev pub uncounted : Task → ℕ
uncounted waiting = 0
uncounted gone = 0
uncounted (received url) = 1
uncounted (sending r) = 0

abbrev pub InHand : Text → List Task → Type 0
InHand url ts = (i : ℕ) × (t : Task) × (get_elem? ts i ≡ some t) × (url_in_hand t ≡ some url)

-- There is a record for the URL.
abbrev pub Filed : Text → List MediaRecord → Type 0
Filed url rs = (r : MediaRecord) × Among r rs × (r.url ≡ url)

pub InHand-set :
    (ts : List Task) (i : ℕ) (url : Text) (old new : Task)
    → get_elem? ts i ≡ some old
    → (url_in_hand old ≡ some url → url_in_hand new ≡ some url)
    → InHand url ts
    → InHand url (set ts i new)
InHand-set ts i url old new h k (j, t, e, q) = elim (same_slot j i) [
  | inl d ↦ (
    i,
    new,
    get_elem?-set_same ts i old new h,
    k (ap url_in_hand (ap_some (sym h ∙ subst (λ (z : ℕ). get_elem? ts z ≡ some t) d e)) ∙ q),
  )
  | inr d ↦ (j, t, get_elem?-set_ne ts i j new d ∙ e, q)
]

-- either it is not that worker's, or it is
pub InHand-done :
    (ts : List Task) (i : ℕ) (url : Text) (old new : Task)
    → get_elem? ts i ≡ some old
    → InHand url ts
    → InHand url (set ts i new) ⊎ (url_in_hand old ≡ some url)
InHand-done ts i url old new h (j, t, e, q) = elim (same_slot j i) [
  | inl d ↦
      inr (ap url_in_hand (ap_some (sym h ∙ subst (λ (z : ℕ). get_elem? ts z ≡ some t) d e)) ∙ q)
  | inr d ↦ inl (j, t, get_elem?-set_ne ts i j new d ∙ e, q)
]

abbrev pub HasGone : List Task → Type 0
HasGone ts = (i : ℕ) × (get_elem? ts i ≡ some gone)

pub HasGone-set :
    (ts : List Task) (i : ℕ) (new : Task) → new ≢ gone → HasGone (set ts i new) → HasGone ts
HasGone-set ts i new n (j, e) = elim (get_elem?-set ts i j new gone e) [
  | inl h ↦ absurd (n h)
  | inr h ↦ (j, h)
]

pub Filed-append : (url : Text) (rs qs : List MediaRecord) → Filed url rs → Filed url (rs ++ qs)
Filed-append url rs qs (r, m, e) = (r, Among-append rs qs r m, e)

pub Filed-last :
    (url : Text) (rs : List MediaRecord) (r : MediaRecord) → r.url ≡ url → Filed url (rs ++ r ∷ [])
Filed-last url rs r e = (r, Among-append_right rs r, e)

pub counted-same :
    (status : MediaStatus) (size : ℕ) (s : Crew)
    → let t = counted status size s in
      (t.todo ≡ s.todo)
      × (t.closed ≡ s.closed)
      × (is_cancelled t ≡ is_cancelled s)
      × (t.results ≡ s.results)
      × (t.manifest ≡ s.manifest)
      × (t.downloads + t.skips + t.failures ≡ s.downloads + s.skips + s.failures + 1)
counted-same downloaded size s = (refl, refl, refl, refl, refl, omega arith)
counted-same skipped size s = (refl, refl, refl, refl, refl, omega arith)
counted-same failed size s = (refl, refl, refl, refl, refl, omega arith)

pub or_true : (b : Bool) → (b || true) ≡ true
or_true true = refl
or_true false = refl

pub Filed-first :
    (url : Text) (r : MediaRecord) (rest : List MediaRecord)
    → Filed url (r ∷ rest)
    → (r.url ≡ url) ⊎ Filed url rest
Filed-first url r rest (q, inl e, h) = inl (ap (λ (x : MediaRecord). x.url) e ∙ h)
Filed-first url r rest (q, inr m, h) = inr (q, m, h)

pub received_ne_gone : (url : Text) → received url ≢ gone
received_ne_gone url e = cc

pub sending_ne_gone : (r : MediaRecord) → sending r ≢ gone
sending_ne_gone r e = cc

pub waiting_ne_gone : waiting ≢ gone
waiting_ne_gone e = cc

pub no_url : (url : Text) → none ≢ some url
no_url url e = cc

pub All-waiting : (n : ℕ) → All (λ t. t ≡ waiting) (idle_tasks n)
All-waiting zero = tt
All-waiting (suc n) = (refl, All-waiting n)

pub length-idle_tasks : (n : ℕ) → 0 < n → 0 < length (idle_tasks n)
length-idle_tasks zero h = h
length-idle_tasks (suc n) h = omega arith

pub one_gone : (ts : List Task) → 0 < length ts → All (λ t. t ≡ gone) ts → HasGone ts
one_gone [] h _ = absurd (omega (arith, h))
one_gone (t ∷ ts) h (e, _) = (0, ap some e)

pub nobody : (ts : List Task) (url : Text) → All (λ t. t ≡ gone) ts → ¬ InHand url ts
nobody ts url a (i, t, e, q) =
    no_url url (ap url_in_hand (sym (get_elem?-All (λ x. x ≡ gone) ts i t a e)) ∙ q)

pub nothing : (url : Text) → ¬ Filed url []
nothing url (r, m, e) = elim m [ ]
