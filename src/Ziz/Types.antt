-- ===== src/Ziz/Types.antt =====
-- internal/ziz/types.go: the posts of the WordPress REST API, the articles that are written, and
-- the conversion. Of the packages html, net/url and time the section's parameters are what the file
-- uses: html.UnescapeString, url.Parse and its methods, and time.Parse with Format. Nothing is
-- assumed of them.
pub mod Unique
use web_scraper.Base.{
  ℕ, zero, suc, ◌+◌, ◌-◌, Bool, true, false, not, ◌&&◌, ◌||◌, Option, none, some, List, [], ◌∷◌,
  ◌++◌, Text, codes, text_eq, is_empty, ltb, leb, ◌==◌, if◌then◌else◌, map, insertion_sort, length,
}
use web_scraper.Base.Int.{ℤ}
use web_scraper.Go.Strings.{trim_space, first_word, has_prefix, contains, split, text_le}

pub record Term : Type 0 where
  pub id : ℤ
  pub name : Text
  pub slug : Text
  pub taxonomy : Text
  pub link : Text

-- A `wpAuthor` has the same fields.
pub record Author : Type 0 where
  pub id : ℤ
  pub name : Text
  pub slug : Text
  pub link : Text

pub record FeaturedMedia : Type 0 where
  pub id : ℤ
  pub source_url : Text
  pub alt_text : Text
  pub caption : Text

pub record Article : Type 0 where
  pub source : Text
  pub source_id : ℤ
  pub legacy_url : Text
  pub slug : Text
  pub title : Text
  pub excerpt_html : Text
  pub excerpt_text : Text
  pub body_html : Text
  pub body_text : Text
  pub published_at : Text
  pub modified_at : Text
  pub author : Option Author
  pub categories : List Term
  pub tags : List Term
  pub featured_media : Option FeaturedMedia
  pub media_urls : List Text
  pub scraped_at : Text

-- A `wpTerm` has the fields of a `Term`, a `wpMedia` those of a `FeaturedMedia`, and a `wpRendered`
-- is its text. Of the ids of a post's author, media and terms, which are not used, there is no
-- copy.
pub record WpPost : Type 0 where
  pub id : ℤ
  pub date : Text
  pub date_gmt : Text
  pub modified : Text
  pub modified_gmt : Text
  pub slug : Text
  pub link : Text
  pub title : Text
  pub content : Text
  pub excerpt : Text
  pub authors : List Author
  pub media : List FeaturedMedia
  pub terms : List (List Term)

-- tagPattern.ReplaceAllString(value, " "): `open_tag` is what has been read of a tag that may not
-- be closed
unfoldable strip_tags : Option Text → Text → Text
strip_tags none [] = []
strip_tags (some tag) [] = tag
strip_tags none (c ∷ s) = elim (c == b'<') [
  | true ↦ strip_tags (some (c ∷ [])) s
  | false ↦ c ∷ strip_tags none s
]
strip_tags (some tag) (c ∷ s) = elim (c == b'>') [
  | true ↦ 32 ∷ strip_tags none s
  | false ↦ strip_tags (some (tag ++ c ∷ [])) s
]

-- \s of the package regexp
abbrev pub is_blank : ℕ → Bool
is_blank c = c == 9 || (c == 10 || (c == 12 || (c == 13 || c == 32)))

-- spacePattern.ReplaceAllString(value, " "): `in_blanks` tells that the last character was a blank
unfoldable squeeze : Bool → Text → Text
squeeze in_blanks [] = []
squeeze in_blanks (c ∷ s) = elim (is_blank c) [
  | true ↦ elim in_blanks [ true ↦ squeeze true s | false ↦ 32 ∷ squeeze true s ]
  | false ↦ c ∷ squeeze false s
]

-- the characters before the first that ends the test, and those after
abbrev drop_blanks : Text → Text
drop_blanks [] = []
drop_blanks (c ∷ s) = if is_blank c then drop_blanks s else c ∷ s

-- a letter of an attribute's name under (?i); the long s counts as an s
unfoldable eat_word : Text → Text → Option Text
eat_word [] s = some s
eat_word (w ∷ word) [] = none
eat_word (w ∷ word) (c ∷ []) = elim (c == w || c + 32 == w) [
  | true ↦ eat_word word []
  | false ↦ none
]
eat_word (w ∷ word) (c ∷ d ∷ s) = elim (c == w || (c + 32 == w)) [
  | true ↦ eat_word word (d ∷ s)
  | false ↦ elim (w == b's' && (c == 0xC5 && d == 0xBF)) [ true ↦ eat_word word s | false ↦ none ]
]

abbrev is_quote : ℕ → Bool
is_quote c = c == b'"' || c == b'\''

-- [^"']+["'], after the characters `w`
unfoldable eat_value : Text → Text → Option (Text × Text)
eat_value w [] = none
eat_value w (c ∷ s) = elim (is_quote c) [
  | true ↦ if is_empty w then none else some (w, s)
  | false ↦ eat_value (w ++ c ∷ []) s
]

abbrev eat_quote : Text → Option (Text × Text)
eat_quote [] = none
eat_quote (c ∷ s) = if is_quote c then eat_value [] s else none

abbrev eat_equals : Text → Option (Text × Text)
eat_equals [] = none
eat_equals (c ∷ s) = if c == b'=' then eat_quote (drop_blanks s) else none

abbrev after_word : Option Text → Option (Text × Text)
after_word none = none
after_word (some s) = eat_equals (drop_blanks s)

abbrev or_else_match : Option (Text × Text) → Option (Text × Text) → Option (Text × Text)
or_else_match none b = b
or_else_match (some a) b = some a

-- attrPattern at the beginning of a text: the value, and the text after the match
unfoldable match_attr : Text → Option (Text × Text)
unfolding eat_word eat_value
match_attr s = or_else_match (after_word (eat_word (codes "src") s)) (
    or_else_match (after_word (eat_word (codes "href") s))
      (after_word (eat_word (codes "srcset") s)))

-- attrPattern.FindAllStringSubmatch: `skip` characters belong to the match before
unfoldable find_attrs : ℕ → Text → List Text
unfolding match_attr
find_attrs skip [] = []
find_attrs (suc skip) (c ∷ s) = find_attrs skip s
find_attrs zero (c ∷ s) = elim (match_attr (c ∷ s)) [
  | none ↦ find_attrs zero s
  | some (value, rest) ↦ value ∷ find_attrs (length s - length rest) s
]

-- the `seen` test of `uniqueSorted`
unfoldable pub is_seen : Text → List Text → Bool
is_seen v [] = false
is_seen v (x ∷ xs) = text_eq x v || is_seen v xs

-- the loop of `uniqueSorted`; `out` is also the set `seen`
unfoldable pub unique_from : List Text → List Text → List Text
unfolding is_seen
unique_from out [] = out
unique_from out (v ∷ values) =
    unique_from (if is_empty v || is_seen v out then out else out ++ v ∷ []) values

unfoldable pub unique_sorted : List Text → List Text
unfolding unique_from
unique_sorted values = insertion_sort text_le (unique_from [] values)

-- what the file uses of net/url
pub record Urls : Type 1 where
  pub Url : Type 0
  pub parse : Text → Option Url
  pub is_abs : Url → Bool
  pub resolve : Url → Url → Url
  pub path : Url → Text
  pub show : Url → Text

abbrev first_or_none {ℓ} : {A : Type ℓ} → List A → Option A
first_or_none [] = none
first_or_none (a ∷ rest) = some a

abbrev concat {ℓ} : {A : Type ℓ} → List (List A) → List A
concat [] = []
concat (xs ∷ xss) = xs ++ concat xss

module _ (unescape : Text → Text) where
  unfoldable clean_text : Text → Text
  unfolding strip_tags squeeze
  clean_text value =
      if is_empty value then [] else trim_space (squeeze false (unescape (strip_tags none value)))

  -- the terms of one taxonomy, in their order
  unfoldable terms_of : Text → List Term → List Term
  unfolding clean_text
  terms_of taxonomy [] = []
  terms_of taxonomy (t ∷ ts) =
      let rest = terms_of taxonomy ts in
      if text_eq t.taxonomy taxonomy then record t { name = clean_text t.name } ∷ rest else rest

  unfoldable featured : List FeaturedMedia → Option FeaturedMedia
  unfolding clean_text
  featured [] = none
  featured (m ∷ ms) = some (record m { caption = clean_text m.caption })

-- `time_of` is time.Parse with "2006-01-02T15:04:05" or else RFC 3339, as UTC in RFC 3339
module _ (time_of : Text → Option Text) where
  abbrev usable : Text → Option Text
  usable raw =
      if is_empty raw || text_eq raw (codes "0000-00-00T00:00:00") then none else time_of raw

  abbrev first_usable : Option Text → Option Text → Text
  first_usable (some t) b = t
  first_usable none (some t) = t
  first_usable none none = []

  unfoldable parse_wp_time : Text → Text → Text
  parse_wp_time primary fallback = first_usable (usable primary) (usable fallback)

module _ (unescape : Text → Text) (urls : Urls) (base : urls.Url) where
  abbrev absolute : urls.Url → urls.Url
  absolute u = if urls.is_abs u then u else urls.resolve base u

  abbrev uploaded : Option urls.Url → List Text
  uploaded none = []
  uploaded (some u) =
      if contains (urls.path (absolute u)) (codes "/wp-content/uploads/")
      then urls.show (absolute u) ∷ []
      else []

  -- one candidate of a srcset, or the whole of another attribute
  unfoldable candidate_urls : Text → List Text
  candidate_urls raw =
      let candidate = first_word (trim_space raw) in
      if is_empty candidate || has_prefix candidate (codes "data:")
      then []
      else uploaded (urls.parse candidate)

  unfoldable urls_of : List Text → List Text
  unfolding candidate_urls
  urls_of [] = []
  urls_of (raw ∷ raws) = candidate_urls raw ++ urls_of raws

  unfoldable urls_of_attrs : List Text → List Text
  unfolding urls_of
  urls_of_attrs [] = []
  urls_of_attrs (value ∷ values) = urls_of (split b',' (unescape value)) ++ urls_of_attrs values

  unfoldable extract_media_urls : Text → List Text
  unfolding urls_of_attrs find_attrs
  extract_media_urls body = urls_of_attrs (find_attrs zero body)

  abbrev source_urls : Option FeaturedMedia → List Text
  source_urls none = []
  source_urls (some m) = if is_empty m.source_url then [] else m.source_url ∷ []

  module _ (time_of : Text → Option Text) where
    -- `scraped_at` is the time in UTC as RFC 3339
    unfoldable pub article_from_wp : WpPost → Text → Article
    unfolding terms_of featured parse_wp_time extract_media_urls unique_sorted clean_text
    article_from_wp post scraped_at = record {
      source = codes "zizonline";
      source_id = post.id;
      legacy_url = post.link;
      slug = post.slug;
      title = clean_text unescape post.title;
      excerpt_html = post.excerpt;
      excerpt_text = clean_text unescape post.excerpt;
      body_html = post.content;
      body_text = clean_text unescape post.content;
      published_at = parse_wp_time time_of post.date_gmt post.date;
      modified_at = parse_wp_time time_of post.modified_gmt post.modified;
      author = first_or_none post.authors;
      categories = terms_of unescape (codes "category") (concat post.terms);
      tags = terms_of unescape (codes "post_tag") (concat post.terms);
      featured_media = featured unescape post.media;
      media_urls =
          unique_sorted
            (extract_media_urls post.content ++ source_urls (featured unescape post.media));
      scraped_at = scraped_at;
    }
