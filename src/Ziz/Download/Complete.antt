-- ===== src/Ziz/Download/Complete.antt =====
-- What `DownloadMedia` has done when it returns without an error.
use web_scraper.Base.{
  ℕ, ◌+◌, ◌<◌, ◌≡◌, ◌≢◌, refl, sym, ap, ◌∙◌, ◌⊎◌, inl, inr, Bool, true, false, none, some, List, [],
  ◌∷◌, Text, arith, get_elem?, set, All-imp, Among, length,
}
use web_scraper.Base.Slots.{
  weigh, weigh-set, weigh_zero, get_elem?-set, get_elem?-set_same, get_elem?-All, length-set,
}
use web_scraper.Base.Dict.{lookup}
use web_scraper.Ziz.Media.{MediaRecord, Stored}
use web_scraper.Ziz.Download.{
  Task, waiting, gone, received, sending, Crew, is_cancelled, Step, sends, closes, interrupts,
  leaves, drops, passes, downloads, delivers, abandons, collects, breaks, Run, stop, step,
  idle_tasks, first_crew, IsOver,
}
use web_scraper.Ziz.Download.Urls.{download_one_media-url}
use web_scraper.Ziz.Download.Workers.{
  ap_some, true_ne_false, InHand-set, InHand-done, HasGone-set, Filed-append, Filed-last,
  counted-same, or_true, Filed-first, received_ne_gone, sending_ne_gone, waiting_ne_gone, no_url,
  All-waiting, length-idle_tasks, one_gone, nobody, nothing, url_in_hand, uncounted, InHand, Filed,
  HasGone,
}

module _ (hash : Text → Text) (extension : Text → Text → Text) (max_bytes capacity : ℕ)
    (resume : Bool) (seen : List (Text × MediaRecord)) (urls : List Text) where
  -- The manifest of an earlier run has the URL, and this run resumes it.
  abbrev Known : Text → Type 0
  Known url = (resume ≡ true) × (lookup url seen ≢ none)

  abbrev Where : Text → Crew → Type 0
  Where url s =
      Among url s.todo
      ⊎ InHand url s.workers
      ⊎ Filed url s.results
      ⊎ Filed url s.manifest
      ⊎ Known url

  pub record IsGood (s : Crew) : Type 0 where
    covers : is_cancelled s ≡ false → (url : Text) → Among url urls → Where url s
    pub count :
        is_cancelled s ≡ false
        → s.downloads + s.skips + s.failures + length s.todo + weigh uncounted s.workers
          ≡ length urls
    pub all_sent : is_cancelled s ≡ false → s.closed ≡ true → s.todo ≡ []
    pub returned : is_cancelled s ≡ false → HasGone s.workers → s.closed ≡ true
    pub someone : 0 < length s.workers

  -- worker i goes on and nobody else, with the context as it was
  moved :
      (s t : Crew) (i : ℕ) (old new : Task)
      → get_elem? s.workers i ≡ some old
      → t.workers ≡ set s.workers i new
      → t.todo ≡ s.todo
      → t.closed ≡ s.closed
      → is_cancelled t ≡ is_cancelled s
      → t.downloads + t.skips + t.failures + uncounted new
        ≡ s.downloads + s.skips + s.failures + uncounted old
      → (new ≡ gone → s.closed ≡ true)
      → ((url : Text) → url_in_hand old ≡ some url → Where url t)
      → ((url : Text) → Filed url s.results → Filed url t.results)
      → ((url : Text) → Filed url s.manifest → Filed url t.manifest)
      → IsGood s
      → IsGood t
  moved s t i old new h w td cl ca co go here rs mf g = record {
    covers = λ z url m. elim (g.covers (sym ca ∙ z) url m) [
      | inl a ↦ inl (rw td a)
      | inr (inl a) ↦ elim (InHand-done s.workers i url old new h a) [
        | inl b ↦ inr (inl (rw w b))
        | inr b ↦ here url b
      ]
      | inr (inr (inl a)) ↦ inr (inr (inl (rs url a)))
      | inr (inr (inr (inl a))) ↦ inr (inr (inr (inl (mf url a))))
      | inr (inr (inr (inr a))) ↦ inr (inr (inr (inr a)))
    ];
    count = λ z.
        rw (w, td)
          (omega (arith, co, g.count (sym ca ∙ z), weigh-set uncounted s.workers i old new h));
    all_sent = λ z e. td ∙ g.all_sent (sym ca ∙ z) (sym cl ∙ e);
    returned = λ z k. cl ∙ gone_now (sym ca ∙ z) (rw w at k);
    someone = rw w (omega (arith, length-set s.workers i new, g.someone));
  }
    where
      gone_now : is_cancelled s ≡ false → HasGone (set s.workers i new) → s.closed ≡ true
      gone_now z (j, e) = elim (get_elem?-set s.workers i j new gone e) [
        | inl x ↦ go x
        | inr x ↦ g.returned z (j, x)
      ]

  -- the context is cancelled
  ended :
      (s t : Crew)
      → length t.workers ≡ length s.workers
      → is_cancelled t ≡ true
      → IsGood s
      → IsGood t
  ended s t l c g = record {
    covers = λ z. absurd (true_ne_false (sym c ∙ z));
    count = λ z. absurd (true_ne_false (sym c ∙ z));
    all_sent = λ z. absurd (true_ne_false (sym c ∙ z));
    returned = λ z. absurd (true_ne_false (sym c ∙ z));
    someone = omega (arith, l, g.someone);
  }

  IsGood-step :
      (s t : Crew) → Step hash extension max_bytes capacity resume seen s t → IsGood s → IsGood t
  IsGood-step s t (sends i url rest c d h) g = record {
    covers = λ z u m. elim (g.covers z u m) [
      | inl a ↦ elim (rw d at a) [
        | inl e ↦ inr (
            inl
              (i, received url, get_elem?-set_same s.workers i waiting (received url) h, ap some e))
        | inr b ↦ inl b
      ]
      | inr (inl a) ↦
          inr (inl (InHand-set s.workers i u waiting (received url) h (λ e. absurd (no_url u e)) a))
      | inr (inr a) ↦ inr (inr a)
    ];
    count = λ z.
        omega
          (arith, g.count z, ap length d, weigh-set uncounted s.workers i waiting (received url) h);
    all_sent = λ z e. absurd (true_ne_false (sym e ∙ c));
    returned =
        λ z k. g.returned z (HasGone-set s.workers i (received url) (received_ne_gone url) k);
    someone = omega (arith, length-set s.workers i (received url), g.someone);
  }
  IsGood-step s t (closes c d) g = record {
    covers = g.covers;
    count = g.count;
    all_sent = λ z e. elim d [ inl h ↦ h | inr h ↦ absurd (true_ne_false (sym h ∙ z)) ];
    returned = λ z k. refl;
    someone = g.someone;
  }
  IsGood-step s t (interrupts c) g = ended s t refl refl g
  IsGood-step s t (leaves i h c) g =
      moved s t i waiting gone h refl refl refl refl refl (λ e. c) (λ url e. absurd (no_url url e))
        (λ url f. f) (λ url f. f) g
  IsGood-step s t (drops i url h c) g = ended s t (length-set s.workers i gone) c g
  IsGood-step s t (passes i url h c r d) g =
      moved s t i (received url) waiting h refl refl refl refl (omega arith)
        (λ e. absurd (waiting_ne_gone e))
        (λ u e.
          inr (inr (inr (inr (r, λ k. d (ap (λ (x : Text). lookup x seen) (ap_some e) ∙ k))))))
        (λ u f. f) (λ u f. f) g
  IsGood-step s t (downloads i url calls answer r files h c d e) g =
      let (td, cl, ca, rs, mf, co) = counted-same r.status r.size s in
      let named : r.url ≡ url =
        sym (ap (λ (x : MediaRecord × Stored). x.0.url) e)
        ∙ download_one_media-url hash extension calls max_bytes url s.files answer in
      moved s t i (received url) (sending r) h refl td cl ca (omega (arith, co))
        (λ k. absurd (sending_ne_gone r k))
        (λ u k. inr (
          inl (
            i,
            sending r,
            get_elem?-set_same s.workers i (received url) (sending r) h,
            ap some named ∙ k,
          )))
        (λ u f. rw rs f) (λ u f. rw mf f) g
  IsGood-step s t (delivers i r h l) g =
      moved s t i (sending r) waiting h refl refl refl refl refl (λ e. absurd (waiting_ne_gone e))
        (λ u e. inr (inr (inl (Filed-last u s.results r (ap_some e)))))
        (λ u f. Filed-append u s.results (r ∷ []) f) (λ u f. f) g
  IsGood-step s t (abandons i r h c) g = ended s t (length-set s.workers i gone) c g
  IsGood-step s t (collects r rest c d) g = record {
    covers = λ z u m. elim (g.covers z u m) [
      | inl a ↦ inl a
      | inr (inl a) ↦ inr (inl a)
      | inr (inr (inl a)) ↦ elim (Filed-first u r rest (rw d at a)) [
        | inl e ↦ inr (inr (inr (inl (Filed-last u s.manifest r e))))
        | inr f ↦ inr (inr (inl f))
      ]
      | inr (inr (inr (inl a))) ↦ inr (inr (inr (inl (Filed-append u s.manifest (r ∷ []) a))))
      | inr (inr (inr (inr a))) ↦ inr (inr (inr (inr a)))
    ];
    count = g.count;
    all_sent = g.all_sent;
    returned = g.returned;
    someone = g.someone;
  }
  IsGood-step s t (breaks r rest c d) g = ended s t refl (or_true s.interrupted) g

  pub IsGood-run :
      (s t : Crew) → Run hash extension max_bytes capacity resume seen s t → IsGood s → IsGood t
  IsGood-run s t stop g = g
  IsGood-run s t (step {t = u} x r) g = IsGood-run u t r (IsGood-step s u x g)

  pub first_crew-IsGood :
      (workers : ℕ) (files : Stored) → 0 < workers → IsGood (first_crew workers urls files)
  first_crew-IsGood workers files l = record {
    covers = λ z u m. inl m;
    count = λ z. omega (
      arith,
      weigh_zero uncounted (idle_tasks workers) (
          All-imp (λ t. t ≡ waiting) (λ t. uncounted t ≡ 0) (idle_tasks workers)
            (λ t e. ap uncounted e) (All-waiting workers)),
    );
    all_sent = λ z e. absurd (true_ne_false (sym e));
    returned = λ z (i, e). absurd (
        waiting_ne_gone (
          sym (
            get_elem?-All (λ t. t ≡ waiting) (idle_tasks workers) i gone (All-waiting workers) e)));
    someone = length-idle_tasks workers l;
  }

  -- Every URL is recorded, or known.
  abbrev pub Covered : Crew → Type 0
  Covered t =
      ((url : Text) → Among url urls → Filed url t.manifest ⊎ Known url)
      × (t.downloads + t.skips + t.failures ≡ length urls)

  pub IsGood-over : (t : Crew) → IsGood t → IsOver t → t.interrupted ≡ false → Covered t
  IsGood-over t g (over, no_results, fine) calm =
      let c : is_cancelled t ≡ false = rw (calm, fine) refl in
      let sent : t.todo ≡ [] = g.all_sent c (g.returned c (one_gone t.workers g.someone over)) in
      (
        λ url m. elim (g.covers c url m) [
          | inl a ↦ elim (rw sent at a) [ ]
          | inr (inl a) ↦ absurd (nobody t.workers url over a)
          | inr (inr (inl a)) ↦ absurd (nothing url (rw no_results at a))
          | inr (inr (inr (inl a))) ↦ inl a
          | inr (inr (inr (inr a))) ↦ inr a
        ],
        omega (
          arith,
          g.count c,
          ap length sent,
          weigh_zero uncounted t.workers (
              All-imp (λ x. x ≡ gone) (λ x. uncounted x ≡ 0) t.workers (λ x e. ap uncounted e)
                over),
        ),
      )
