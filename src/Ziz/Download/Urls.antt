-- ===== src/Ziz/Download/Urls.antt =====
-- The URL of a download's record.
use web_scraper.Base.{ℕ, ◌≡◌, refl, inl, inr, not, ◌&&◌, Text, length, take, ltb, Bool-cases}
use web_scraper.Base.Int.{pos, ltb_ℤ}
use web_scraper.Base.Dict.{lookup}
use web_scraper.Ziz.Client.{Response, Reply, got, bad_request, rejected, cancelled, exhausted}
use web_scraper.Ziz.Media.{
  reader_limit, Calls, Stored, media_name, media_type, is_stored, store_media, save_media,
  download_one_media,
}

store_media-url :
    (calls : Calls) (url content_type sum ext body : Text) (files : Stored)
    → (store_media calls url content_type sum ext body files).0.url ≡ url
unfolding store_media
store_media-url calls url content_type sum ext body files =
    elim (Bool-cases (is_stored (lookup (media_name sum ext) files))) [
      | inl e ↦ rw e refl
      | inr e ↦ rw e (elim (Bool-cases calls.rename) [ inl c ↦ rw c refl | inr c ↦ rw c refl ])
    ]

module _ (hash : Text → Text) (extension : Text → Text → Text) (calls : Calls) (max_bytes : ℕ)
    (url : Text) (files : Stored) where
  save_media-url :
      (r : Response) → (save_media hash extension calls max_bytes url r files).0.url ≡ url
  unfolding save_media
  save_media-url r = elim (Bool-cases (ltb_ℤ (pos max_bytes) r.content_length)) [
    | inl a ↦ rw a refl
    | inr a ↦ rw a (elim (Bool-cases (not (calls.create_temp && calls.copy))) [
      | inl b ↦ rw b refl
      | inr b ↦
          rw b (elim (Bool-cases (ltb max_bytes (length (take (reader_limit max_bytes) r.body)))) [
            | inl c ↦ rw c refl
            | inr c ↦ rw c (elim (Bool-cases (not (calls.sync && calls.close && calls.mkdir))) [
              | inl d ↦ rw d refl
              | inr d ↦ rw d (store_media-url calls url (media_type r.content_type) _ _ _ files)
            ])
          ])
    ])
  ]

  pub download_one_media-url :
      (answer : Reply)
      → (download_one_media hash extension calls max_bytes url answer files).0.url ≡ url
  unfolding download_one_media
  download_one_media-url (got r) = save_media-url r
  download_one_media-url bad_request = refl
  download_one_media-url (rejected r) = refl
  download_one_media-url cancelled = refl
  download_one_media-url (exhausted e) = refl
