-- ===== src/Ziz/Migrate/Report.antt =====
-- How `writeJSON` leaves the directory.
use web_scraper.Base.{◌≡◌, ◌≢◌, refl, sym, ◌∙◌, ◌⊎◌, inl, inr, none, some, [], ◌∷◌, Text}
use web_scraper.Base.Dict.{
  lookup, insert, remove, lookup-insert_same, lookup-insert_ne, lookup-remove_same,
  lookup-remove_ne,
}
use web_scraper.Ziz.Parts.{
  Outcome, works, fails, dies, Call, create, encode, sync, close, rename, remove_temporary, in_turn,
  temporary,
}
use web_scraper.Ziz.Parts.Names.{temporary_ne}
use web_scraper.Ziz.Parts.Atomic.{in_turn-found, fails_ne_works, dies_ne_works}
use web_scraper.Ziz.Migrate.{
  Doc, whole, torn, Docs, Saved, saved, unsaved, ended, discard, moved, filled, created, write_json,
}

module _ {A : Type 0} (script : Call → Outcome) (path : Text) (value : A) (before : Docs A) where
  -- Nothing but the file and its temporary one has changed.
  abbrev pub KeepsOthers : Docs A → Type 0
  KeepsOthers docs = (q : Text) → path ≢ q → temporary path ≢ q → lookup q docs ≡ lookup q before

  -- Nothing but the temporary file has changed.
  abbrev pub Keeps : Docs A → Type 0
  Keeps docs = (lookup path docs ≡ lookup path before) × KeepsOthers docs

  -- A call had the outcome.
  abbrev Some : Outcome → Type 0
  Some o = (c : Call) × (script c ≡ o)

  abbrev pub Leaves : Saved A → Type 0
  Leaves (saved docs) =
      (lookup path docs ≡ some (whole value))
      × (lookup (temporary path) docs ≡ none)
      × KeepsOthers docs
  Leaves (unsaved docs) =
      Keeps docs
      × Some fails
      × ((script create ≡ fails)
          ⊎ (script remove_temporary ≡ fails)
          ⊎ (lookup (temporary path) docs ≡ none)
          ⊎ (lookup (temporary path) docs ≡ some (whole value)))
  Leaves (ended docs) = Keeps docs × Some dies

  Keeps-insert : (d : Doc A) (docs : Docs A) → Keeps docs → Keeps (insert (temporary path) d docs)
  Keeps-insert d docs (same, others) = (
    lookup-insert_ne (temporary path) path d docs (temporary_ne path) ∙ same,
    λ q a b. lookup-insert_ne (temporary path) q d docs b ∙ others q a b,
  )

  Keeps-remove : (docs : Docs A) → Keeps docs → Keeps (remove (temporary path) docs)
  Keeps-remove docs (same, others) = (
    lookup-remove_ne (temporary path) path docs (temporary_ne path) ∙ same,
    λ q a b. lookup-remove_ne (temporary path) q docs b ∙ others q a b,
  )

  discard-Leaves :
      (o : Outcome) (docs : Docs A)
      → script remove_temporary ≡ o
      → Keeps docs
      → Some fails
      → Leaves (discard script path value o docs)
  discard-Leaves works docs h k c =
      (Keeps-remove docs k, c, inr (inr (inl (lookup-remove_same (temporary path) docs))))
  discard-Leaves fails docs h k c = (k, c, inr (inl h))
  discard-Leaves dies docs h k c = (k, (remove_temporary, h))

  moved-Leaves :
      (o : Outcome) (docs : Docs A)
      → script rename ≡ o
      → Keeps docs
      → lookup (temporary path) docs ≡ some (whole value)
      → Leaves (moved script path value o docs)
  moved-Leaves works docs h k t = (
    lookup-insert_same path (whole value) (remove (temporary path) docs),
    lookup-insert_ne path (temporary path) (whole value) (remove (temporary path) docs)
          (λ e. temporary_ne path (sym e))
        ∙ lookup-remove_same (temporary path) docs,
    λ q a b.
        lookup-insert_ne path q (whole value) (remove (temporary path) docs) a
        ∙ (Keeps-remove docs k).1 q a b,
  )
  moved-Leaves fails docs h k t = (k, (rename, h), inr (inr (inr t)))
  moved-Leaves dies docs h k t = (k, (rename, h))

  filled-Leaves :
      (o : Outcome) (docs : Docs A)
      → in_turn script (encode 0 ∷ sync ∷ close ∷ []) ≡ o
      → Keeps docs
      → Leaves (filled script path value o docs)
  filled-Leaves works docs h k =
      moved-Leaves (script rename) (insert (temporary path) (whole value) docs) refl
        (Keeps-insert (whole value) docs k) (lookup-insert_same (temporary path) (whole value) docs)
  filled-Leaves fails docs h k =
      discard-Leaves (script remove_temporary) docs refl k
        (in_turn-found script _ fails (fails_ne_works script) h)
  filled-Leaves dies docs h k = (k, in_turn-found script _ dies (dies_ne_works script) h)

  created-Leaves : (o : Outcome) → script create ≡ o → Leaves (created script path value o before)
  created-Leaves works h =
      filled-Leaves _ (insert (temporary path) torn before) refl
        (Keeps-insert torn before (refl, λ q a b. refl))
  created-Leaves fails h = ((refl, λ q a b. refl), (create, h), inl h)
  created-Leaves dies h = ((refl, λ q a b. refl), (create, h))

  -- Whichever calls fail and wherever the process ends, the file that `writeJSON` writes is as it
  -- was or, when it returns no error, it is the whole new value, and no file but it and its
  -- temporary one changes. An error comes from a call that failed; it leaves no temporary file
  -- unless the file could not be created or removed, or it is whole and could not be renamed.
  pub write_json-Leaves : Leaves (write_json script path value before)
  unfolding write_json
  write_json-Leaves = created-Leaves (script create) refl
