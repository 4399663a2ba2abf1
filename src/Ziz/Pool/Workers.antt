-- ===== src/Ziz/Pool/Workers.antt =====
-- Where the workers are, and the pages that they have in hand.
use web_scraper.Base.{
  ℕ, ◌≡◌, ◌≢◌, refl, sym, ap, ◌∙◌, subst, inl, inr, Bool, true, false, ◌||◌, Option, none, some,
  List, get_elem?, set,
}
use web_scraper.Base.Slots.{get_elem?-set, get_elem?-set_ne, get_elem?-set_same}
use web_scraper.Ziz.Types.{WpPost}
use web_scraper.Ziz.Pool.{
  Phase, Failure, waiting, gone, received, fetching, writing, has_failed, or_first,
}
use web_scraper.Ziz.Pool.Exported.{same_page, ap_some}

-- The page that a worker has in hand.
abbrev pub page_in_hand : Phase → Option ℕ
page_in_hand waiting = none
page_in_hand gone = none
page_in_hand (received n) = some n
page_in_hand (fetching n) = some n
page_in_hand (writing n posts) = some n

abbrev pub busy : Phase → ℕ
busy waiting = 0
busy gone = 0
busy (received n) = 1
busy (fetching n) = 1
busy (writing n posts) = 1

abbrev pub Holds : Phase → List Phase → Type 0
Holds w ws = (i : ℕ) × (get_elem? ws i ≡ some w)

abbrev pub InHand : ℕ → List Phase → Type 0
InHand n ws = (i : ℕ) × (w : Phase) × (get_elem? ws i ≡ some w) × (page_in_hand w ≡ some n)

pub true_ne_false : true ≢ false
true_ne_false e = cc

pub gone_ne_writing : (n : ℕ) (posts : List WpPost) → gone ≢ writing n posts
gone_ne_writing n posts e = cc

pub waiting_ne_writing : (n : ℕ) (posts : List WpPost) → waiting ≢ writing n posts
waiting_ne_writing n posts e = cc

pub waiting_ne_gone : waiting ≢ gone
waiting_ne_gone e = cc

pub failed_cancelled :
    (b : Bool) (o : Option Failure) (e : Failure) → (b || has_failed (or_first o e)) ≡ true
failed_cancelled true none e = refl
failed_cancelled true (some d) e = refl
failed_cancelled false none e = refl
failed_cancelled false (some d) e = refl

pub InHand-set :
    (ws : List Phase) (i m : ℕ) (old new : Phase)
    → get_elem? ws i ≡ some old
    → (page_in_hand old ≡ some m → page_in_hand new ≡ some m)
    → InHand m ws
    → InHand m (set ws i new)
InHand-set ws i m old new h k (j, w, e, q) = elim (same_page j i) [
  | inl d ↦ (
    i,
    new,
    get_elem?-set_same ws i old new h,
    k (ap page_in_hand (ap_some (sym h ∙ subst (λ (z : ℕ). get_elem? ws z ≡ some w) d e)) ∙ q),
  )
  | inr d ↦ (j, w, get_elem?-set_ne ws i j new d ∙ e, q)
]

pub Holds-set :
    (ws : List Phase) (i : ℕ) (w new : Phase) → new ≢ w → Holds w (set ws i new) → Holds w ws
Holds-set ws i w new n (j, e) = elim (get_elem?-set ws i j new w e) [
  | inl h ↦ absurd (n h)
  | inr h ↦ (j, h)
]
