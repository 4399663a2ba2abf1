-- ===== src/Ziz/Pool/Invariant.antt =====
-- What holds of the pool in every state that it reaches.
use web_scraper.Base.{
  ℕ, suc, ◌+◌, ◌≤◌, ◌<◌, ◌≡◌, refl, sym, ap, ◌∙◌, subst, ◌⊎◌, inl, inr, Bool, true, false, none,
  some, List, [], ◌∷◌, arith, get_elem?, set, All, All-imp, length,
}
use web_scraper.Base.Slots.{
  weigh, weigh-set, weigh_zero, get_elem?-set, get_elem?-set_same, get_elem?-All, length-set,
}
use web_scraper.Ziz.Types.{WpPost}
use web_scraper.Ziz.Client.{Fetched, page, Page}
use web_scraper.Ziz.Parts.{Packages, Files}
use web_scraper.Ziz.Pool.{
  Pool, Phase, waiting, gone, received, fetching, writing, Step, Run, stop, step, sends, closes,
  interrupts, leaves, drops, skips, asks, fetches, misses, writes, breaks, is_cancelled, IsOver,
  goes, unfetched, unwritten,
}
use web_scraper.Ziz.Pool.Exported.{
  same_page, ap_some, none_ne_some, Exported, Origin, broke, Origin-same, Origin-wrote,
  Exported-here, Exported-wrote, Exported-skips,
}
use web_scraper.Ziz.Pool.Workers.{
  page_in_hand, busy, Holds, InHand, true_ne_false, gone_ne_writing, waiting_ne_writing,
  waiting_ne_gone, failed_cancelled, InHand-set, Holds-set,
}

module _ (p : Packages) (resume : Bool) (total : ℕ) (ask : ℕ → Fetched) (before : Files) where
  abbrev Asked : List Phase → Type 0
  Asked ws =
      (i n : ℕ) (posts : List WpPost)
      → get_elem? ws i ≡ some (writing n posts)
      → (r : Page) × (ask n ≡ page r) × (r.posts ≡ posts)

  abbrev pub Progress : Pool → Type 0
  Progress s =
      is_cancelled s ≡ false
      → ((n : ℕ)
          → 1 ≤ n
          → n < s.next
          → Exported p resume total ask before n s.files ⊎ InHand n s.workers)
        × (s.pages_written + s.pages_skipped + weigh busy s.workers + 1 ≡ s.next)

  -- A worker that has returned without the end of the pages was cancelled.
  abbrev Returned : Pool → Type 0
  Returned s =
      is_cancelled s ≡ false
      → ((s.closed ≡ true) → total < s.next) × (Holds gone s.workers → s.closed ≡ true)

  pub record IsGood (s : Pool) : Type 0 where
    pub origin : Origin p resume total ask before s.files
    pub asked : Asked s.workers
    pub progress : Progress s
    pub returned : Returned s
    pub bound : s.next ≤ suc total
    pub someone : 0 < length s.workers

  Asked-set :
      (ws : List Phase) (i : ℕ) (new : Phase)
      → ((n : ℕ) (posts : List WpPost)
          → new ≡ writing n posts
          → (r : Page) × (ask n ≡ page r) × (r.posts ≡ posts))
      → Asked ws
      → Asked (set ws i new)
  Asked-set ws i new k a j n posts h = elim (get_elem?-set ws i j new (writing n posts) h) [
    | inl e ↦ k n posts e
    | inr e ↦ a j n posts e
  ]

  same_writing :
      (n m : ℕ) (r : Page) (posts : List WpPost)
      → ask n ≡ page r
      → writing n r.posts ≡ writing m posts
      → (q : Page) × (ask m ≡ page q) × (q.posts ≡ posts)
  same_writing n m r posts e f =
      let d : n ≡ m = cc in let k : r.posts ≡ posts = cc in (r, rw d at e, k)

  -- a step of worker i that keeps its page, or has none
  moved :
      (s : Pool) (i : ℕ) (old new : Phase)
      → get_elem? s.workers i ≡ some old
      → page_in_hand new ≡ page_in_hand old
      → busy new ≡ busy old
      → ((n : ℕ) (posts : List WpPost)
          → new ≡ writing n posts
          → (r : Page) × (ask n ≡ page r) × (r.posts ≡ posts))
      → (new ≡ gone → s.closed ≡ true)
      → IsGood s
      → IsGood (goes i new s)
  moved s i old new h same b k c g = record {
    origin = g.origin;
    asked = Asked-set s.workers i new k g.asked;
    progress = λ z.
        let (held, count) = g.progress z in
        (
          λ n l u. elim (held n l u) [
            | inl x ↦ inl x
            | inr x ↦ inr (InHand-set s.workers i n old new h (λ q. same ∙ q) x)
          ],
          omega (arith, weigh-set busy s.workers i old new h),
        );
    returned = λ z. (
      (g.returned z).0,
      λ (j, e). elim (get_elem?-set s.workers i j new gone e) [
        | inl x ↦ c x
        | inr x ↦ (g.returned z).1 (j, x)
      ],
    );
    bound = g.bound;
    someone = omega (arith, length-set s.workers i new, g.someone);
  }

  -- a worker returns with the context cancelled
  ended :
      (s t : Pool) (i : ℕ)
      → t.workers ≡ set s.workers i gone
      → t.next ≡ s.next
      → Origin p resume total ask before t.files
      → is_cancelled t ≡ true
      → IsGood s
      → IsGood t
  ended s t i w n o c g = record {
    origin = o;
    asked =
        rw w (Asked-set s.workers i gone (λ m posts e. absurd (gone_ne_writing m posts e)) g.asked);
    progress = λ z. absurd (true_ne_false (sym c ∙ z));
    returned = λ z. absurd (true_ne_false (sym c ∙ z));
    bound = rw n (g.bound);
    someone = rw w (omega (arith, length-set s.workers i gone, g.someone));
  }

  -- worker i has done with its page
  done :
      (s t : Pool) (i n : ℕ) (old : Phase)
      → get_elem? s.workers i ≡ some old
      → page_in_hand old ≡ some n
      → busy old ≡ 1
      → t.workers ≡ set s.workers i waiting
      → t.next ≡ s.next
      → t.closed ≡ s.closed
      → (is_cancelled t ≡ false → is_cancelled s ≡ false)
      → t.pages_written + t.pages_skipped ≡ s.pages_written + s.pages_skipped + 1
      → Origin p resume total ask before t.files
      → Exported p resume total ask before n t.files
      → ((m : ℕ)
          → Exported p resume total ask before m s.files
          → Exported p resume total ask before m t.files)
      → IsGood s
      → IsGood t
  done s t i n old h q b w x y z count o here keep g = record {
    origin = o;
    asked = rw w (
        Asked-set s.workers i waiting (λ m posts e. absurd (waiting_ne_writing m posts e)) g.asked);
    progress = λ c. (
      λ m l u. elim (same_page n m) [
        | inl d ↦ inl (subst (λ (k : ℕ). Exported p resume total ask before k t.files) d here)
        | inr d ↦ elim ((g.progress (z c)).0 m l (omega (arith, x))) [
          | inl e ↦ inl (keep m e)
          | inr e ↦ inr (
              rw w
                (InHand-set s.workers i m old waiting h (λ f. absurd (d (ap_some (sym q ∙ f)))) e))
        ]
      ],
      rw w (omega (arith, weigh-set busy s.workers i old waiting h, (g.progress (z c)).1)),
    );
    returned = λ c. (
      λ f. omega (arith, x, (g.returned (z c)).0 (sym y ∙ f)),
      λ f.
          y ∙ (g.returned (z c)).1 (Holds-set s.workers i gone waiting waiting_ne_gone (rw w at f)),
    );
    bound = omega (arith, x, g.bound);
    someone = rw w (omega (arith, length-set s.workers i waiting, g.someone));
  }

  IsGood-step : (s t : Pool) → Step p resume total ask s t → IsGood s → IsGood t
  IsGood-step s t (sends i c n h) g = record {
    origin = g.origin;
    asked = Asked-set s.workers i (received s.next) (λ m posts e. cc) g.asked;
    progress = λ z.
        let (held, count) = g.progress z in
        (
          λ m l u. elim (same_page m s.next) [
            | inl d ↦ inr (
              i,
              received s.next,
              get_elem?-set_same s.workers i waiting (received s.next) h,
              ap some (sym d),
            )
            | inr d ↦ elim (held m l (omega arith)) [
              | inl x ↦ inl x
              | inr x ↦ inr (InHand-set s.workers i m waiting (received s.next) h (λ e. cc) x)
            ]
          ],
          omega (arith, weigh-set busy s.workers i waiting (received s.next) h),
        );
    returned = λ z. (
      λ f. absurd (true_ne_false (sym f ∙ c)),
      λ f. (g.returned z).1 (Holds-set s.workers i gone (received s.next) (λ e. cc) f),
    );
    bound = omega arith;
    someone = omega (arith, length-set s.workers i (received s.next), g.someone);
  }
  IsGood-step s t (closes c d) g = record {
    origin = g.origin;
    asked = g.asked;
    progress = g.progress;
    returned =
        λ z. (λ f. elim d [ inl l ↦ l | inr e ↦ absurd (true_ne_false (sym e ∙ z)) ], λ f. refl);
    bound = g.bound;
    someone = g.someone;
  }
  IsGood-step s t (interrupts c) g = record {
    origin = g.origin;
    asked = g.asked;
    progress = λ z. absurd (true_ne_false z);
    returned = λ z. absurd (true_ne_false z);
    bound = g.bound;
    someone = g.someone;
  }
  IsGood-step s t (leaves i h c) g =
      moved s i waiting gone h refl refl (λ n posts e. absurd (gone_ne_writing n posts e)) (λ e. c)
        g
  IsGood-step s t (drops i n h c) g = ended s t i refl refl g.origin c g
  IsGood-step s t (skips i n h c r d e) g =
      done s t i n (received n) h refl refl refl refl refl (λ z. z) (omega arith) g.origin
        (Exported-skips p resume total ask before n s.files g.origin r d e) (λ m x. x) g
  IsGood-step s t (asks i n h c d) g =
      moved s i (received n) (fetching n) h refl refl (λ m posts e. cc) (λ e. cc) g
  IsGood-step s t (fetches i n r h e) g =
      moved s i (fetching n) (writing n r.posts) h refl refl
        (λ m posts f. same_writing n m r posts e f) (λ f. cc) g
  IsGood-step s t (misses i n h) g =
      ended s t i refl refl g.origin (failed_cancelled s.interrupted s.failure (unfetched n)) g
  IsGood-step s t (writes i n posts now script files h e) g =
      let served = g.asked i n posts h in
      done s t i n (writing n posts) h refl refl refl refl refl (λ z. z) (omega arith)
        (Origin-wrote p resume total ask before n posts now script s.files files e served g.origin)
        (Exported-here p resume total ask before n posts now script s.files files e served)
        (Exported-wrote p resume total ask before n posts now script s.files files e served) g
  IsGood-step s t (breaks i n posts now script files h e) g =
      ended s t i refl refl
        (Origin-same p resume total ask before s.files files
          (broke p resume total ask before n posts now script s.files files e) g.origin)
        (failed_cancelled s.interrupted s.failure (unwritten n)) g

  pub IsGood-run : (s t : Pool) → Run p resume total ask s t → IsGood s → IsGood t
  IsGood-run s t stop g = g
  IsGood-run s t (step {t = u} x r) g = IsGood-run u t r (IsGood-step s u x g)

  nobody : (ws : List Phase) (n : ℕ) → All (λ w. w ≡ gone) ws → InHand n ws → none ≡ some n
  nobody ws n a (i, w, e, q) = ap page_in_hand (sym (get_elem?-All (λ v. v ≡ gone) ws i w a e)) ∙ q

  idle : (ws : List Phase) → All (λ w. w ≡ gone) ws → All (λ w. busy w ≡ 0) ws
  idle ws a = All-imp (λ w. w ≡ gone) (λ w. busy w ≡ 0) ws (λ w e. ap busy e) a

  one_gone : (ws : List Phase) → 0 < length ws → All (λ w. w ≡ gone) ws → Holds gone ws
  one_gone [] h _ = absurd (omega arith)
  one_gone (w ∷ ws) h (e, _) = (0, ap some e)

  pub IsGood-over :
      (s : Pool)
      → IsGood s
      → IsOver s
      → is_cancelled s ≡ false
      → ((n : ℕ) → 1 ≤ n → n ≤ total → Exported p resume total ask before n s.files)
        × (s.pages_written + s.pages_skipped ≡ total)
  IsGood-over s g over c =
      let (held, count) = g.progress c in
      let (all_sent, end) = g.returned c in
      let last : total < s.next = all_sent (end (one_gone s.workers g.someone over)) in
      (
        λ n l u. elim (held n l (omega arith)) [
          | inl x ↦ x
          | inr x ↦ absurd (none_ne_some (nobody s.workers n over x))
        ],
        omega (arith, weigh_zero busy s.workers (idle s.workers over), g.bound),
      )
