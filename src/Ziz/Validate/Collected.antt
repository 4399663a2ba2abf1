-- ===== src/Ziz/Validate/Collected.antt =====
-- Which articles a visit reaches.
use web_scraper.Base.{
  ◌≡◌, refl, ◌⊎◌, inl, inr, Bool, true, false, Option, none, some, List, [], ◌∷◌, ◌++◌, Text, codes,
  text_eq, text_eq_refl, text_eq_iff, Among, Among-select_where, select_where-Among, ◌↔◌, arith,
  Bool-cases, map, select_where, if◌then◌else◌, ℕ,
}
use web_scraper.Base.Sorted.{Among-insertion_sort}
use web_scraper.Base.Dict.{lookup}
use web_scraper.Go.Strings.{text_le, has_prefix}
use web_scraper.Ziz.Types.{Article}
use web_scraper.Ziz.Parts.{File, Files, is_part, part_name, five_digits, has_suffix}
use web_scraper.Ziz.Validate.{
  is_nil, visit_all, read_article_part, read_parts, part_names, read_articles,
}
use web_scraper.Ziz.Validate.Counts.{collected}

abbrev collect : Article → List Article → Bool × List Article
collect a xs = (true, a ∷ xs)

-- What has been collected stays.
visit_all-keeps :
    (ys : List Article) (b : Bool) (xs : List Article) (a : Article)
    → Among a xs
    → Among a (visit_all collect ys b xs).state
unfolding visit_all
visit_all-keeps [] b xs a m = m
visit_all-keeps (c ∷ ys) b xs a m = visit_all-keeps ys b (c ∷ xs) a (inr m)

visit_all-collects :
    (ys : List Article) (b : Bool) (xs : List Article) (a : Article)
    → Among a ys
    → Among a (visit_all collect ys b xs).state
unfolding visit_all
visit_all-collects [] b xs a m = elim m [ ]
visit_all-collects (c ∷ ys) b xs a (inl e) = visit_all-keeps ys b (c ∷ xs) a (inl e)
visit_all-collects (c ∷ ys) b xs a (inr m) = visit_all-collects ys b (c ∷ xs) a m

visit_all-only :
    (ys : List Article) (b : Bool) (xs : List Article) (a : Article)
    → Among a (visit_all collect ys b xs).state
    → Among a ys ⊎ Among a xs
unfolding visit_all
visit_all-only [] b xs a m = inr m
visit_all-only (c ∷ ys) b xs a m = elim (visit_all-only ys b (c ∷ xs) a m) [
  | inl n ↦ inl (inr n)
  | inr (inl e) ↦ inl (inl e)
  | inr (inr n) ↦ inr n
]

part-keeps :
    (o : Option File) (xs : List Article) (a : Article)
    → Among a xs
    → Among a (read_article_part collect o xs).state
unfolding read_article_part
part-keeps none xs a m = m
part-keeps (some f) xs a m = visit_all-keeps f.articles f.ends_well xs a m

parts-keeps :
    (files : Files) (names : List Text) (xs : List Article) (a : Article)
    → Among a xs
    → Among a (read_parts collect files names xs).state
unfolding read_parts
parts-keeps files [] xs a m = m
parts-keeps files (name ∷ names) xs a m =
    let part = read_article_part collect (lookup name files) xs in
    let n : Among a part.state = part-keeps (lookup name files) xs a m in
    elim (Bool-cases part.complete) [
      | inl e ↦ rw e (parts-keeps files names part.state a n)
      | inr e ↦ rw e n
    ]

-- The article stands in a part of one of the names.
abbrev InPart : Files → List Text → Article → Type 0
InPart files names a =
    (name : Text) × (f : File) × Among name names
    × (lookup name files ≡ some f)
    × Among a f.articles

part-collects :
    (o : Option File) (f : File) (xs : List Article) (a : Article)
    → o ≡ some f
    → Among a f.articles
    → Among a (read_article_part collect o xs).state
unfolding read_article_part
part-collects o f xs a e m = rw e (visit_all-collects f.articles f.ends_well xs a m)

parts-collects :
    (files : Files) (names : List Text) (xs : List Article) (a : Article)
    → (read_parts collect files names xs).complete ≡ true
    → InPart files names a
    → Among a (read_parts collect files names xs).state
unfolding read_parts
parts-collects files [] xs a h (name, f, m, e, n) = elim m [ ]
parts-collects files (name ∷ names) xs a h (k, f, m, e, n) =
    let part = read_article_part collect (lookup name files) xs in
    elim (Bool-cases part.complete) [
      | inr d ↦ absurd (cc (d, rw d at h))
      | inl d ↦ rw d (elim m [
        | inl q ↦
            parts-keeps files names part.state a
              (part-collects (lookup name files) f xs a (rw q e) n)
        | inr q ↦ parts-collects files names part.state a (rw d at h) (k, f, q, e, n)
      ])
    ]

part-only :
    (o : Option File) (xs : List Article) (a : Article)
    → Among a (read_article_part collect o xs).state
    → ((f : File) × (o ≡ some f) × Among a f.articles) ⊎ Among a xs
unfolding read_article_part
part-only none xs a m = inr m
part-only (some f) xs a m = elim (visit_all-only f.articles f.ends_well xs a m) [
  | inl n ↦ inl (f, refl, n)
  | inr n ↦ inr n
]

parts-only :
    (files : Files) (names : List Text) (xs : List Article) (a : Article)
    → Among a (read_parts collect files names xs).state
    → InPart files names a ⊎ Among a xs
unfolding read_parts
parts-only files [] xs a m = inr m
parts-only files (name ∷ names) xs a m =
    let part = read_article_part collect (lookup name files) xs in
    let later : InPart files names a ⊎ Among a part.state = elim (Bool-cases part.complete) [
      | inl d ↦ parts-only files names part.state a (rw d at m)
      | inr d ↦ inr (rw d at m)
    ] in
    elim later [
      | inl (k, f, n, e, q) ↦ inl (k, f, inr n, e, q)
      | inr n ↦ elim (part-only (lookup name files) xs a n) [
        | inl (f, e, q) ↦ inl (name, f, inl refl, e, q)
        | inr q ↦ inr q
      ]
    ]

-- The names that are read are those of parts.
lookup-Among :
    (name : Text) (files : Files) (f : File)
    → lookup name files ≡ some f
    → Among name (map (λ (e : Text × File). e.0) files)
unfolding lookup
lookup-Among name [] f h = cc
lookup-Among name ((k, g) ∷ files) f h = elim (Bool-cases (text_eq k name)) [
  | inl e ↦ inl ((text_eq_iff k name).0 e)
  | inr e ↦ inr (lookup-Among name files f (rw e at h))
]

part_names-Among :
    (files : Files) (name : Text) (f : File)
    → lookup name files ≡ some f
    → is_part name ≡ true
    → Among name (part_names files)
unfolding part_names
part_names-Among files name f h p =
    let names = map (λ (e : Text × File). e.0) files in
    (Among-insertion_sort text_le (select_where is_part names) name).1
      (select_where-Among is_part names name (lookup-Among name files f h) p)

part_names-is_part :
    (files : Files) (name : Text) → Among name (part_names files) → is_part name ≡ true
unfolding part_names
part_names-is_part files name m =
    let names = map (λ (e : Text × File). e.0) files in
    (Among-select_where is_part names name
      ((Among-insertion_sort text_le (select_where is_part names) name).0 m)).1

-- The article stands in a part of the directory.
abbrev pub Stands : Files → Article → Type 0
Stands files a =
    (name : Text) × (f : File) × (is_part name ≡ true)
    × (lookup name files ≡ some f)
    × Among a f.articles

by_names :
    (files : Files) (names : List Text)
    → let visit =
        if is_nil names
        then record { state = []; complete = false }
        else read_parts collect files names [] in
      visit.complete ≡ true → (a : Article) → Among a visit.state ↔ InPart files names a
by_names files [] h a = cc
by_names files (n ∷ ns) h a = (
  λ m. elim (parts-only files (n ∷ ns) [] a m) [ inl q ↦ q | inr q ↦ elim q [ ] ],
  parts-collects files (n ∷ ns) [] a h,
)

-- When the articles can all be read, the articles that are read are those of the parts.
pub collected_iff :
    (files : Files) (a : Article)
    → (collected files).complete ≡ true
    → Among a (collected files).state ↔ Stands files a
unfolding read_articles
collected_iff files a h =
    let (reads, stands) = by_names files (part_names files) h a in
    (
      λ m. let (name, f, n, e, q) = reads m in (name, f, part_names-is_part files name n, e, q),
      λ (name, f, p, e, q). stands (name, f, part_names-Among files name f e p, e, q),
    )

has_suffix-append : (s t : Text) → has_suffix (s ++ t) t ≡ true
unfolding has_suffix text_eq
has_suffix-append [] [] = refl
has_suffix-append [] (c ∷ t) = rw (text_eq_refl (c ∷ t)) refl
has_suffix-append (d ∷ s) t = ground (arith, has_suffix-append s t)

-- Every page's part is read.
pub part_name-is_part : (n : ℕ) → is_part (part_name n) ≡ true
unfolding is_part part_name has_prefix
part_name-is_part n = has_suffix-append (five_digits n) (codes ".jsonl.gz")
