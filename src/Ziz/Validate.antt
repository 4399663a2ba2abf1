-- ===== src/Ziz/Validate.antt =====
-- internal/ziz/export.go: `ReadArticles` over the parts of the directory, and `ValidateArticles`.
pub mod Visitors
pub mod Listed
pub mod Counts
pub mod Collected
use web_scraper.Base.{
  ℕ, zero, suc, ◌+◌, Bool, true, false, not, ◌&&◌, ◌||◌, Option, none, some, List, [], ◌∷◌, ◌++◌,
  Text, text_eq, is_empty, ltb, if◌then◌else◌, length, insertion_sort, select_where, map,
}
use web_scraper.Base.Dict.{lookup}
use web_scraper.Base.Int.{ℤ, int_eq, ltb_ℤ}
use web_scraper.Go.Strings.{text_le, trim_space}
use web_scraper.Ziz.Types.{Article, is_seen}
use web_scraper.Ziz.Parts.{File, Files, is_part}

-- What a visit of the articles leaves: the visitor's state, and whether every article was visited.
pub record Visit (S : Type 0) : Type 0 where
  pub state : S
  pub complete : Bool

-- the visitor of an article: none is its error
module _ {S : Type 0} (fn : Article → S → Bool × S) where
  unfoldable pub visit_all : List Article → Bool → S → Visit S
  visit_all [] ends_well s = record { state = s; complete = ends_well }
  visit_all (a ∷ rest) ends_well s =
      let (fine, s') = fn a s in
      let visited = visit_all rest ends_well s' in
      if fine then visited else record { state = s'; complete = false }

  -- `readArticlePart`
  unfoldable pub read_article_part : Option File → S → Visit S
  unfolding visit_all
  read_article_part none s = record { state = s; complete = false }
  read_article_part (some f) s = visit_all f.articles f.ends_well s

  unfoldable pub read_parts : Files → List Text → S → Visit S
  unfolding read_article_part
  read_parts files [] s = record { state = s; complete = true }
  read_parts files (name ∷ names) s =
      let part = read_article_part (lookup name files) s in
      let rest = read_parts files names part.state in if part.complete then rest else part

-- the names that filepath.Glob finds, sorted
unfoldable pub part_names : Files → List Text
part_names files = insertion_sort text_le (select_where is_part (map (λ entry. entry.0) files))

abbrev pub is_nil {ℓ} : {A : Type ℓ} → List A → Bool
is_nil [] = true
is_nil (x ∷ xs) = false

unfoldable pub read_articles : {S : Type 0} → (Article → S → Bool × S) → Files → S → Visit S
unfolding read_parts part_names
read_articles fn files s =
    if is_nil (part_names files)
    then record { state = s; complete = false }
    else read_parts fn files (part_names files) s

-- `ValidateStats` while the articles are visited, with the sets `ids` and `media`
pub record Tally : Type 0 where
  pub ids : List ℤ
  pub media : List Text
  pub duplicates : ℕ
  pub empty_bodies : ℕ
  pub empty_titles : ℕ
  pub duplicate_ids : List ℤ

unfoldable pub is_known : ℤ → List ℤ → Bool
is_known n [] = false
is_known n (m ∷ ms) = int_eq m n || is_known n ms

unfoldable pub add_urls : List Text → List Text → List Text
add_urls [] media = media
add_urls (url ∷ urls) media = add_urls urls (if is_seen url media then media else media ++ url ∷ [])

abbrev pub plus_if : Bool → ℕ → ℕ
plus_if true n = suc n
plus_if false n = n

-- the first half of the visitor
unfoldable pub count_id : ℤ → Tally → Tally
unfolding is_known
count_id id t =
    if is_known id t.ids
    then record t {
      duplicates = suc t.duplicates;
      duplicate_ids =
          if ltb (length t.duplicate_ids) 100 then t.duplicate_ids ++ id ∷ [] else t.duplicate_ids;
    }
    else record t { ids = t.ids ++ id ∷ [] }

-- the visitor of `ValidateArticles`
unfoldable pub count_article : Article → Tally → Tally
unfolding count_id add_urls
count_article a t =
    let u = count_id a.source_id t in
    record u {
      empty_titles = plus_if (is_empty (trim_space a.title)) u.empty_titles;
      empty_bodies = plus_if (is_empty (trim_space a.body_html)) u.empty_bodies;
      media = add_urls a.media_urls u.media;
    }

pub record ValidateStats : Type 0 where
  pub unique_articles : ℕ
  pub duplicates : ℕ
  pub empty_bodies : ℕ
  pub empty_titles : ℕ
  pub media_urls : ℕ
  pub duplicate_ids : List ℤ

abbrev pub first_tally : Tally
first_tally = record {
  ids = [];
  media = [];
  duplicates = 0;
  empty_bodies = 0;
  empty_titles = 0;
  duplicate_ids = [];
}

abbrev pub int_le : ℤ → ℤ → Bool
int_le a b = not (ltb_ℤ b a)

-- the statistics without an error
abbrev pub summary : Tally → ValidateStats
summary t = record {
  unique_articles = length t.ids;
  duplicates = t.duplicates;
  empty_bodies = t.empty_bodies;
  empty_titles = t.empty_titles;
  media_urls = length t.media;
  duplicate_ids = insertion_sort int_le t.duplicate_ids;
}

-- with an error there are the counts so far, of which the caller makes no use
unfoldable pub validate_articles : Files → Option ValidateStats
unfolding read_articles count_article
validate_articles files =
    let visit = read_articles (λ a t. (true, count_article a t)) files first_tally in
    if visit.complete then some (summary visit.state) else none
