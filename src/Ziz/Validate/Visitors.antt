-- ===== src/Ziz/Validate/Visitors.antt =====
-- Two visitors of the articles, side by side.
use web_scraper.Base.{
  ◌≡◌, refl, inl, inr, Bool, true, false, Option, none, some, List, [], ◌∷◌, Text, if◌then◌else◌,
  Bool-cases,
}
use web_scraper.Base.Dict.{lookup}
use web_scraper.Ziz.Types.{Article}
use web_scraper.Ziz.Parts.{File, Files}
use web_scraper.Ziz.Validate.{
  Visit, is_nil, visit_all, read_article_part, read_parts, part_names, read_articles,
}

-- Two visitors that never fail, and the relation of their states.
module _ {S T : Type 0} (f : Article → S → S) (g : Article → T → T) (R : S → T → Type 0)
    (keeps : (a : Article) (s : S) (t : T) → R s t → R (f a s) (g a t)) where
  abbrev Agree : Visit S → Visit T → Type 0
  Agree v w = (v.complete ≡ w.complete) × R v.state w.state

  abbrev visit_s : Article → S → Bool × S
  visit_s a s = (true, f a s)

  abbrev visit_t : Article → T → Bool × T
  visit_t a t = (true, g a t)

  visit_all-Agree :
      (xs : List Article) (b : Bool) (s : S) (t : T)
      → R s t
      → Agree (visit_all visit_s xs b s) (visit_all visit_t xs b t)
  unfolding visit_all
  visit_all-Agree [] b s t r = (refl, r)
  visit_all-Agree (x ∷ xs) b s t r = visit_all-Agree xs b (f x s) (g x t) (keeps x s t r)

  read_article_part-Agree :
      (o : Option File) (s : S) (t : T)
      → R s t
      → Agree (read_article_part visit_s o s) (read_article_part visit_t o t)
  unfolding read_article_part
  read_article_part-Agree none s t r = (refl, r)
  read_article_part-Agree (some x) s t r = visit_all-Agree x.articles x.ends_well s t r

  read_parts-Agree :
      (files : Files) (names : List Text) (s : S) (t : T)
      → R s t
      → Agree (read_parts visit_s files names s) (read_parts visit_t files names t)
  unfolding read_parts
  read_parts-Agree files [] s t r = (refl, r)
  read_parts-Agree files (name ∷ names) s t r =
      let v = read_article_part visit_s (lookup name files) s in
      let w = read_article_part visit_t (lookup name files) t in
      let (e, q) = read_article_part-Agree (lookup name files) s t r in
      elim (Bool-cases w.complete) [
        | inl h ↦ rw (e, h) (read_parts-Agree files names v.state w.state q)
        | inr h ↦ rw (e, h) (e, q)
      ]

  pub read_articles-Agree :
      (files : Files) (s : S) (t : T)
      → R s t
      → Agree (read_articles visit_s files s) (read_articles visit_t files t)
  unfolding read_articles
  read_articles-Agree files s t r = by_names (part_names files)
    where
      by_names :
          (names : List Text)
          → Agree
              (if is_nil names
                then record { state = s; complete = false }
                else read_parts visit_s files names s)
              (if is_nil names
                then record { state = t; complete = false }
                else read_parts visit_t files names t)
      by_names [] = (refl, r)
      by_names (n ∷ ns) = read_parts-Agree files (n ∷ ns) s t r
