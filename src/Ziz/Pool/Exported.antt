-- ===== src/Ziz/Pool/Exported.antt =====
-- What stands in the directory for a page, and what a write of a part does to that.
use web_scraper.Base.{
  ℕ, ◌≡◌, ◌≢◌, refl, sym, ap, ◌∙◌, subst, ◌⊎◌, inl, inr, Bool, true, none, some, List, arith, Text,
  Option-cases,
}
use web_scraper.Base.Dict.{lookup}
use web_scraper.Ziz.Types.{WpPost}
use web_scraper.Ziz.Client.{Fetched, page, Page}
use web_scraper.Ziz.Parts.{
  Packages, File, Files, Call, Outcome, written, failed, part_name, whole_part, write_article_part,
}
use web_scraper.Ziz.Parts.Names.{part_name-injective, part_name-temporary}
use web_scraper.Ziz.Parts.Atomic.{write_article_part-Leaves, Leaves}

pub same_page : (n m : ℕ) → (n ≡ m) ⊎ (n ≢ m)
same_page n m = omega arith

pub ap_some : {A : Type 0} {a b : A} → some a ≡ some b → a ≡ b
ap_some h = cc

pub none_ne_some : {A : Type 0} {a : A} → none ≢ some a
none_ne_some e = cc

module _ (p : Packages) (resume : Bool) (total : ℕ) (ask : ℕ → Fetched) (before : Files) where
  -- The file is the part written for the posts of the page that the server returned.
  abbrev FromServer : ℕ → File → Type 0
  FromServer n f = (r : Page) × (now : Text) × (ask n ≡ page r) × (f ≡ whole_part p now r.posts)

  -- The page's part stands in the directory, and is the server's or, when the export resumes, and
  -- the page is not the last of several, the one from before.
  abbrev pub Exported : ℕ → Files → Type 0
  Exported n files =
      (f : File) × (lookup (part_name n) files ≡ some f)
      × (FromServer n f
          ⊎ ((resume ≡ true) × ((n ≢ total) ⊎ (n ≡ 1)) × (lookup (part_name n) before ≡ some f)))

  abbrev pub Origin : Files → Type 0
  Origin files =
      (n : ℕ) (f : File)
      → lookup (part_name n) files ≡ some f
      → FromServer n f ⊎ (lookup (part_name n) before ≡ some f)

  pub wrote :
      (n : ℕ) (posts : List WpPost) (now : Text) (script : Call → Outcome) (files after : Files)
      → write_article_part p now script (part_name n) posts files ≡ written after
      → (lookup (part_name n) after ≡ some (whole_part p now posts))
        × ((m : ℕ) → n ≢ m → lookup (part_name m) after ≡ lookup (part_name m) files)
  wrote n posts now script files after e =
      let (a, b, c) =
        subst (λ w. Leaves script (part_name n) (whole_part p now posts) files w) e
          (write_article_part-Leaves p now script (part_name n) posts files) in
      (
        a,
        λ m d.
            c (part_name m) (λ h. d (part_name-injective n m h))
              (λ h. part_name-temporary m (part_name n) (sym h)),
      )

  pub broke :
      (n : ℕ) (posts : List WpPost) (now : Text) (script : Call → Outcome) (files after : Files)
      → write_article_part p now script (part_name n) posts files ≡ failed after
      → (m : ℕ) → lookup (part_name m) after ≡ lookup (part_name m) files
  broke n posts now script files after e m =
      let ((same, c), _, _) =
        subst (λ w. Leaves script (part_name n) (whole_part p now posts) files w) e
          (write_article_part-Leaves p now script (part_name n) posts files) in
      elim (same_page n m) [
        | inl h ↦ subst (λ (z : ℕ). lookup (part_name z) after ≡ lookup (part_name z) files) h same
        | inr d ↦
            c (part_name m) (λ h. d (part_name-injective n m h))
              (λ h. part_name-temporary m (part_name n) (sym h))
      ]

  pub Origin-same :
      (files after : Files)
      → ((m : ℕ) → lookup (part_name m) after ≡ lookup (part_name m) files)
      → Origin files
      → Origin after
  Origin-same files after h o n f e = o n f (sym (h n) ∙ e)

  from_server :
      (n m : ℕ) (posts : List WpPost) (now : Text) (f : File)
      → (r : Page) × (ask n ≡ page r) × (r.posts ≡ posts)
      → n ≡ m
      → f ≡ whole_part p now posts
      → FromServer m f
  from_server n m posts now f (r, a, b) e h = (r, now, rw e at a, h ∙ ap (whole_part p now) (sym b))

  module _ (n : ℕ) (posts : List WpPost) (now : Text) (script : Call → Outcome)
      (files after : Files)
      (e : write_article_part p now script (part_name n) posts files ≡ written after)
      (served : (r : Page) × (ask n ≡ page r) × (r.posts ≡ posts)) where
    pub Origin-wrote : Origin files → Origin after
    Origin-wrote o m f h = elim (same_page n m) [
      | inl d ↦ inl (
          from_server n m posts now f served d (
            ap_some (
              sym (subst (λ (z : ℕ). lookup (part_name z) after ≡ some f) (sym d) h)
              ∙ (wrote n posts now script files after e).0)))
      | inr d ↦ o m f (sym ((wrote n posts now script files after e).1 m d) ∙ h)
    ]

    pub Exported-here : Exported n after
    Exported-here = (
      whole_part p now posts,
      (wrote n posts now script files after e).0,
      inl (from_server n n posts now _ served refl refl),
    )

    pub Exported-wrote : (m : ℕ) → Exported m files → Exported m after
    Exported-wrote m (f, h, k) = elim (same_page n m) [
      | inl d ↦ subst (λ (z : ℕ). Exported z after) d Exported-here
      | inr d ↦ (f, (wrote n posts now script files after e).1 m d ∙ h, k)
    ]

  pub Exported-skips :
      (n : ℕ) (files : Files)
      → Origin files
      → resume ≡ true
      → n ≢ total
      → lookup (part_name n) files ≢ none
      → Exported n files
  Exported-skips n files o r d h = elim (Option-cases (lookup (part_name n) files)) [
    | inl e ↦ absurd (h e)
    | inr (f, e) ↦ (f, e, elim (o n f e) [ inl k ↦ inl k | inr k ↦ inr (r, inl d, k) ])
  ]
