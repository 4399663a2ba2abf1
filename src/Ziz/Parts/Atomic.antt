-- ===== src/Ziz/Parts/Atomic.antt =====
-- What `writeArticlePart` leaves, whichever of its calls fail, and wherever the process ends.
use web_scraper.Base.{◌≡◌, ◌≢◌, ◌⊎◌, inl, inr, refl, sym, ◌∙◌, none, some, List, [], ◌∷◌, Text}
use web_scraper.Base.Dict.{
  lookup-insert_same, lookup-insert_ne, lookup-remove_same, lookup-remove_ne, lookup, insert,
  remove,
}
use web_scraper.Ziz.Types.{WpPost}
use web_scraper.Ziz.Parts.{
  File, Files, Packages, Call, create, sync, close, rename, remove_temporary, Outcome, works, fails,
  dies, Written, written, failed, died, temporary, unfinished, whole_part, in_turn, give_up,
  first_of, renamed, filled, created, write_article_part,
}
use web_scraper.Ziz.Parts.Names.{temporary_ne}

module _ (script : Call → Outcome) where
  pub in_turn-found :
      (calls : List Call) (o : Outcome)
      → o ≢ works
      → in_turn script calls ≡ o
      → (c : Call) × (script c ≡ o)
  unfolding in_turn
  in_turn-found [] o n e = absurd (n (sym e))
  in_turn-found (c ∷ calls) o n e = by_first (script c) refl (in_turn-found calls o n) e
    where
      by_first :
          (x : Outcome)
          → script c ≡ x
          → (in_turn script calls ≡ o → (d : Call) × (script d ≡ o))
          → first_of x (in_turn script calls) ≡ o
          → (d : Call) × (script d ≡ o)
      by_first works h ih f = ih f
      by_first fails h ih f = (c, h ∙ f)
      by_first dies h ih f = (c, h ∙ f)

  pub fails_ne_works : fails ≢ works
  fails_ne_works e = cc

  pub dies_ne_works : dies ≢ works
  dies_ne_works e = cc

  module _ (name : Text) (part : File) (before : Files) where
    -- Every other file, but the temporary one, is as it was.
    abbrev pub KeepsOthers : Files → Type 0
    KeepsOthers files =
        (q : Text) → name ≢ q → temporary name ≢ q → lookup q files ≡ lookup q before

    -- Nothing but the temporary file has changed.
    abbrev pub Keeps : Files → Type 0
    Keeps files = (lookup name files ≡ lookup name before) × KeepsOthers files

    abbrev pub Leaves : Written → Type 0
    Leaves (written files) =
        (lookup name files ≡ some part) × (lookup (temporary name) files ≡ none) × KeepsOthers files
    Leaves (failed files) =
        Keeps files
        × ((script create ≡ fails)
            ⊎ (script remove_temporary ≡ fails)
            ⊎ (lookup (temporary name) files ≡ none))
        × ((c : Call) × (script c ≡ fails))
    Leaves (died files) = Keeps files × ((c : Call) × (script c ≡ dies))

    Keeps-insert :
        (f : File) (files : Files) → Keeps files → Keeps (insert (temporary name) f files)
    Keeps-insert f files (same, others) = (
      lookup-insert_ne (temporary name) name f files (temporary_ne name) ∙ same,
      λ q a b. lookup-insert_ne (temporary name) q f files b ∙ others q a b,
    )

    Keeps-remove : (files : Files) → Keeps files → Keeps (remove (temporary name) files)
    Keeps-remove files (same, others) = (
      lookup-remove_ne (temporary name) name files (temporary_ne name) ∙ same,
      λ q a b. lookup-remove_ne (temporary name) q files b ∙ others q a b,
    )

    give_up-Leaves :
        (o : Outcome) (files : Files)
        → script remove_temporary ≡ o
        → Keeps files
        → (c : Call) × (script c ≡ fails)
        → Leaves (give_up o name files)
    give_up-Leaves works files h k f =
        (Keeps-remove files k, inr (inr (lookup-remove_same (temporary name) files)), f)
    give_up-Leaves fails files h k f = (k, inr (inl h), f)
    give_up-Leaves dies files h k f = (k, (remove_temporary, h))

    renamed-Leaves :
        (o : Outcome) (files : Files)
        → in_turn script (sync ∷ close ∷ rename ∷ []) ≡ o
        → Keeps files
        → Leaves (renamed script name part o files)
    renamed-Leaves works files h k = (
      lookup-insert_same name part (remove (temporary name) files),
      lookup-insert_ne name (temporary name) part (remove (temporary name) files)
            (λ e. temporary_ne name (sym e))
          ∙ lookup-remove_same (temporary name) files,
      λ q a b.
          lookup-insert_ne name q part (remove (temporary name) files) a
          ∙ (Keeps-remove files k).1 q a b,
    )
    renamed-Leaves fails files h k =
        give_up-Leaves _ files refl k (in_turn-found _ fails fails_ne_works h)
    renamed-Leaves dies files h k = (k, in_turn-found _ dies dies_ne_works h)

    filled-Leaves :
        (calls : List Call) (o : Outcome) (files : Files)
        → in_turn script calls ≡ o
        → Keeps files
        → Leaves (filled script name part o files)
    filled-Leaves calls works files h k =
        renamed-Leaves _ (insert (temporary name) part files) refl (Keeps-insert part files k)
    filled-Leaves calls fails files h k =
        give_up-Leaves _ files refl k (in_turn-found calls fails fails_ne_works h)
    filled-Leaves calls dies files h k = (k, in_turn-found calls dies dies_ne_works h)

    created-Leaves :
        (o : Outcome) (posts : List WpPost)
        → script create ≡ o
        → Leaves (created script name part o posts before)
    created-Leaves works posts h =
        filled-Leaves _ _ _ refl (Keeps-insert unfinished before (refl, λ q a b. refl))
    created-Leaves fails posts h = ((refl, λ q a b. refl), inl h, (create, h))
    created-Leaves dies posts h = ((refl, λ q a b. refl), (create, h))

-- Whichever calls fail and wherever the process ends, a part is as it was or, when the write
-- succeeds, it is the whole new part, and no file but it and its temporary one changes. The write
-- fails only when a call fails, and a failed write leaves no temporary file when os.Create and
-- os.Remove work; nor does one that succeeds.
pub write_article_part-Leaves :
    (p : Packages) (now : Text) (script : Call → Outcome) (name : Text) (posts : List WpPost)
    (files : Files)
    → Leaves script name
        (whole_part p now posts)
        files
        (write_article_part p now script name posts files)
unfolding write_article_part
write_article_part-Leaves p now script name posts files =
    created-Leaves script name (whole_part p now posts) files (script create) posts refl
