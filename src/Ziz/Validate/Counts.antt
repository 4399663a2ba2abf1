-- ===== src/Ziz/Validate/Counts.antt =====
-- What `ValidateArticles` counts.
use web_scraper.Base.{
  ℕ, suc, ◌+◌, ◌≡◌, refl, ◌∙◌, ◌⊎◌, ◌↔◌, inl, inr, Bool, true, false, none, some, List, [], ◌∷◌,
  ◌++◌, Text, is_empty, length, length-append, Among, if◌then◌else◌, arith, Bool-cases, count_where,
}
use web_scraper.Base.Ordered.{length-insertion_sort}
use web_scraper.Base.Int.{ℤ, int_eq, int_eq_iff}
use web_scraper.Base.Sets.{IsSetOf, add-IsSetOf, IsSetOf-iff}
use web_scraper.Ziz.Types.Unique.{is_seen-Among, Among-is_seen}
use web_scraper.Go.Strings.{trim_space}
use web_scraper.Ziz.Types.{Article, is_seen}
use web_scraper.Ziz.Parts.{Files}
use web_scraper.Ziz.Validate.{
  Visit, read_articles, Tally, is_known, add_urls, count_id, count_article, ValidateStats,
  first_tally, plus_if, int_le, summary, validate_articles,
}
use web_scraper.Ziz.Validate.Listed.{
  Gathered, id_of, known→counted, unknown→none, IsListed, new-IsListed, repeat-IsListed,
  sorted-IsListed,
}
use web_scraper.Ziz.Validate.Visitors.{read_articles-Agree}

is_known_iff : (n : ℤ) (ms : List ℤ) → (is_known n ms ≡ true) ↔ Among n ms
unfolding is_known
is_known_iff n ms = (known→among n ms, among→known n ms)
  where
    known→among : (n : ℤ) (ms : List ℤ) → is_known n ms ≡ true → Among n ms
    known→among n [] h = cc
    known→among n (m ∷ ms) h = elim (Bool-cases (int_eq m n)) [
      | inl e ↦ inl ((int_eq_iff m n).0 e)
      | inr e ↦ inr (known→among n ms (rw e at h))
    ]

    among→known : (n : ℤ) (ms : List ℤ) → Among n ms → is_known n ms ≡ true
    among→known n [] k = elim k [ ]
    among→known n (m ∷ ms) (inl e) = rw ((int_eq_iff m n).1 e) refl
    among→known n (m ∷ ms) (inr k) = ground (arith, among→known n ms k)

abbrev urls_in : Article → List Text
urls_in a = a.media_urls

abbrev has_no_title : Article → Bool
has_no_title a = is_empty (trim_space a.title)

abbrev has_no_body : Article → Bool
has_no_body a = is_empty (trim_space a.body_html)

-- What the tally is after the articles are visited, the last first.
pub record IsTallied (xs : List Article) (t : Tally) : Type 0 where
  pub balance : t.duplicates + length t.ids ≡ length xs
  pub ids : IsSetOf (Gathered id_of xs) t.ids
  pub media : IsSetOf (Gathered urls_in xs) t.media
  pub listed : IsListed xs t.duplicates t.duplicate_ids
  pub titles : t.empty_titles ≡ count_where has_no_title xs
  pub bodies : t.empty_bodies ≡ count_where has_no_body xs

count_id-balance :
    (id : ℤ) (t : Tally)
    → (count_id id t).duplicates + length (count_id id t).ids ≡ suc (t.duplicates + length t.ids)
unfolding count_id
count_id-balance id t = elim (Bool-cases (is_known id t.ids)) [
  | inl e ↦ rw e (omega arith)
  | inr e ↦ rw e (omega (arith, length-append t.ids (id ∷ [])))
]

count_id-IsListed :
    (a : Article) (xs : List Article) (t : Tally)
    → IsSetOf (Gathered id_of xs) t.ids
    → IsListed xs t.duplicates t.duplicate_ids
    → let u = count_id a.source_id t in IsListed (a ∷ xs) u.duplicates u.duplicate_ids
unfolding count_id
count_id-IsListed a xs t s h = elim (Bool-cases (is_known a.source_id t.ids)) [
  | inl e ↦ rw e (
      repeat-IsListed a xs t.duplicates t.duplicate_ids
        (known→counted a.source_id xs ((s.1 a.source_id).0 ((is_known_iff a.source_id t.ids).0 e)))
        h)
  | inr e ↦ rw e (
      new-IsListed a xs t.duplicates t.duplicate_ids
        (unknown→none a.source_id xs
          λ g. absurd (cc (e, (is_known_iff a.source_id t.ids).1 ((s.1 a.source_id).1 g))))
        h)
]

count_id-ids :
    (id : ℤ) (t : Tally)
    → (count_id id t).ids ≡ (if is_known id t.ids then t.ids else t.ids ++ id ∷ [])
unfolding count_id
count_id-ids id t = elim (Bool-cases (is_known id t.ids)) [ inl e ↦ rw e refl | inr e ↦ rw e refl ]

count_id-rest :
    (id : ℤ) (t : Tally)
    → ((count_id id t).media ≡ t.media)
      × ((count_id id t).empty_titles ≡ t.empty_titles)
      × ((count_id id t).empty_bodies ≡ t.empty_bodies)
unfolding count_id
count_id-rest id t = elim (Bool-cases (is_known id t.ids)) [
  | inl e ↦ rw e (refl, refl, refl)
  | inr e ↦ rw e (refl, refl, refl)
]

pub add_urls-IsSetOf :
    (P : Text → Type 0) (urls media : List Text)
    → IsSetOf P media
    → IsSetOf (λ z. Among z urls ⊎ P z) (add_urls urls media)
unfolding add_urls
add_urls-IsSetOf P [] media h =
    IsSetOf-iff P _ media (λ z. (λ k. inr k, λ k. elim k [ inl n ↦ elim n [ ] | inr q ↦ q ])) h
add_urls-IsSetOf P (url ∷ urls) media h =
    IsSetOf-iff _ _ _
      (λ z. (
        λ k. elim k [ inl n ↦ inl (inr n) | inr (inl e) ↦ inl (inl e) | inr (inr q) ↦ inr q ],
        λ k. elim k [ inl (inl e) ↦ inr (inl e) | inl (inr n) ↦ inl n | inr q ↦ inr (inr q) ],
      ))
      (add_urls-IsSetOf (λ z. (url ≡ z) ⊎ P z) urls _
        (add-IsSetOf is_seen (λ v xs. (is_seen-Among v xs, Among-is_seen v xs)) P url media h))

plus_if-count :
    (p : Article → Bool) (a : Article) (xs : List Article) (n : ℕ)
    → n ≡ count_where p xs
    → plus_if (p a) n ≡ count_where p (a ∷ xs)
unfolding count_where
plus_if-count p a xs n h = elim (Bool-cases (p a)) [
  | inl e ↦ rw e (omega (arith, h))
  | inr e ↦ rw e (omega (arith, h))
]

count_article-IsTallied :
    (a : Article) (xs : List Article) (t : Tally)
    → IsTallied xs t
    → IsTallied (a ∷ xs) (count_article a t)
unfolding count_article
count_article-IsTallied a xs t h =
    let (m, i, b) = count_id-rest a.source_id t in
    record {
      balance = omega (arith, count_id-balance a.source_id t, h.balance);
      ids = rw (count_id-ids a.source_id t) (
          IsSetOf-iff _ _ _
            (λ z. (
              λ k. elim k [ inl e ↦ inl (inl e) | inr q ↦ inr q ],
              λ k. elim k [ inl (inl e) ↦ inl e | inl (inr n) ↦ elim n [ ] | inr q ↦ inr q ],
            ))
            (add-IsSetOf is_known is_known_iff (Gathered id_of xs) a.source_id t.ids h.ids));
      media = rw m (add_urls-IsSetOf (Gathered urls_in xs) a.media_urls t.media h.media);
      listed = count_id-IsListed a xs t h.ids h.listed;
      titles = plus_if-count has_no_title a xs _ (i ∙ h.titles);
      bodies = plus_if-count has_no_body a xs _ (b ∙ h.bodies);
    }

-- The statistics of the articles.
pub record IsCounted (xs : List Article) (s : ValidateStats) : Type 0 where
  pub balance : s.duplicates + s.unique_articles ≡ length xs
  pub ids : List ℤ
  pub ids_set : IsSetOf (Gathered id_of xs) ids
  pub unique : s.unique_articles ≡ length ids
  pub media : List Text
  pub media_set : IsSetOf (Gathered urls_in xs) media
  pub media_count : s.media_urls ≡ length media
  pub listed : IsListed xs s.duplicates s.duplicate_ids
  pub titles : s.empty_titles ≡ count_where has_no_title xs
  pub bodies : s.empty_bodies ≡ count_where has_no_body xs

summary-IsCounted : (xs : List Article) (t : Tally) → IsTallied xs t → IsCounted xs (summary t)
summary-IsCounted xs t h = record {
  balance = h.balance;
  ids = t.ids;
  ids_set = h.ids;
  unique = refl;
  media = t.media;
  media_set = h.media;
  media_count = refl;
  listed =
      sorted-IsListed int_le xs t.duplicates t.duplicate_ids
        (length-insertion_sort int_le t.duplicate_ids) h.listed;
  titles = h.titles;
  bodies = h.bodies;
}

first_tally-IsTallied : IsTallied [] first_tally
unfolding count_where
first_tally-IsTallied = record {
  balance = refl;
  ids = (tt, λ z. (λ k. k, λ k. k));
  media = (tt, λ z. (λ k. k, λ k. k));
  listed = record { kept = refl; within = λ z. omega arith; all = λ l z. refl };
  titles = refl;
  bodies = refl;
}

-- the visitor that collects the articles, the last first
abbrev pub collected : Files → Visit (List Article)
collected files = read_articles (λ a xs. (true, a ∷ xs)) files []

-- `ValidateArticles` returns an error exactly when the articles cannot all be read. Otherwise each
-- article is counted once, as unique or as a duplicate: the unique ones are as many as there are
-- different ids, and the media URLs as many as there are different ones over all articles. An id is
-- listed as a duplicate at most once for each article that has it but one, and exactly so often if
-- there are at most 100 duplicates; of more, 100 are listed. The empty titles and bodies are those
-- of the articles that have nothing but white space there.
pub validate_articles-IsCounted :
    (files : Files)
    → (((collected files).complete ≡ false) × (validate_articles files ≡ none))
      ⊎ (((collected files).complete ≡ true)
          × ((s : ValidateStats) × (validate_articles files ≡ some s)
              × IsCounted (collected files).state s))
unfolding validate_articles
validate_articles-IsCounted files =
    let (same, tallied) =
      read_articles-Agree (λ a xs. a ∷ xs) count_article IsTallied count_article-IsTallied files []
        first_tally first_tally-IsTallied in
    let visit = read_articles (λ a t. (true, count_article a t)) files first_tally in
    elim (Bool-cases (collected files).complete) [
      | inl e ↦ inr (
        e,
        (
          summary visit.state,
          rw (← same, e) refl,
          summary-IsCounted (collected files).state visit.state tallied,
        ),
      )
      | inr e ↦ inl (e, rw (← same, e) refl)
    ]
