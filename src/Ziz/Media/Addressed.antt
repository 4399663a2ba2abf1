-- ===== src/Ziz/Media/Addressed.antt =====
-- Where a downloaded file is, and what is in it.
use web_scraper.Base.{
  ℕ, zero, suc, ◌≤◌, ◌<◌, ◌≡◌, ◌≢◌, refl, sym, ◌∙◌, ap, subst, ◌⊎◌, inl, inr, true, false, not,
  ◌&&◌, none, some, [], ◌∷◌, ◌++◌, Text, codes, length, take, ltb, text_eq_iff, arith, Bool-cases,
  Option-cases,
}
use web_scraper.Base.Int.{pos, ltb_ℤ}
use web_scraper.Base.Dict.{lookup, insert, lookup-insert_same, lookup-insert_ne}
use web_scraper.Ziz.Client.{Response, Reply, got, bad_request, rejected, cancelled, exhausted}
use web_scraper.Ziz.Media.{
  reader_limit, MediaRecord, failed, Calls, Stored, media_name, media_type, store_media, save_media,
  download_one_media, is_done,
}

none_ne_some : {A : Type 0} {a : A} → none ≢ some a
none_ne_some e = cc

ap_some : {A : Type 0} {a b : A} → some a ≡ some b → a ≡ b
ap_some h = cc

not_ltb : (a b : ℕ) → ltb a b ≡ false → b ≤ a
not_ltb a b h = ground arith

take_all : (n : ℕ) (s : Text) → length (take (suc n) s) ≤ n → take (suc n) s ≡ s
take_all n [] h = refl
take_all zero (c ∷ s) h = absurd (omega (arith, h))
take_all (suc n) (c ∷ s) h = ap (λ t. c ∷ t) (take_all n s (omega (arith, h)))

append_split : (xs ys s t : Text) → length xs ≡ length ys → xs ++ s ≡ ys ++ t → (xs ≡ ys) × (s ≡ t)
append_split [] [] s t l e = (refl, e)
append_split [] (y ∷ ys) s t l e = absurd (omega (arith, l))
append_split (x ∷ xs) [] s t l e = absurd (omega (arith, l))
append_split (x ∷ xs) (y ∷ ys) s t l e =
    let h : x ≡ y = cc in let (a, b) = append_split xs ys s t (omega (arith, l)) (cc) in (cc, b)

reader_limit-suc : (n : ℕ) → n < 9223372036854775807 → reader_limit n ≡ suc n
unfolding reader_limit
reader_limit-suc n h = ground arith

take_limit :
    (n : ℕ) (s : Text)
    → n < 9223372036854775807
    → length (take (reader_limit n) s) ≤ n
    → take (reader_limit n) s ≡ s
take_limit n s m h =
    ap (λ (k : ℕ). take k s) (reader_limit-suc n m)
    ∙ take_all n s (subst (λ (k : ℕ). length (take k s) ≤ n) (reader_limit-suc n m) h)

length-take_two : (s : Text) → length s ≡ 64 → length (take 2 s) ≡ 2
length-take_two [] h = absurd (omega (arith, h))
length-take_two (a ∷ []) h = absurd (omega (arith, h))
length-take_two (a ∷ b ∷ s) h = refl

module _ (hash : Text → Text) (hash_length : (body : Text) → length (hash body) ≡ 64) where
  -- Every file has the path that its own hash gives.
  abbrev pub IsAddressed : Stored → Type 0
  IsAddressed files =
      (name body : Text)
      → lookup name files ≡ some body
      → (ext : Text) × (name ≡ media_name (hash body) ext)

  same_hash :
      (a b ext ext' : Text) → media_name (hash a) ext ≡ media_name (hash b) ext' → hash a ≡ hash b
  same_hash a b ext ext' e =
      let (_, rest) =
        append_split (take 2 (hash a)) (take 2 (hash b)) _ _
          (length-take_two (hash a) (hash_length a)
            ∙ sym (length-take_two (hash b) (hash_length b)))
          e in
      (append_split (hash a) (hash b) ext ext' (hash_length a ∙ sym (hash_length b)) (cc)).0

  -- The record's file holds the body, or another with its hash.
  abbrev pub Holds : MediaRecord → Text → Stored → Type 0
  Holds record_ body files =
      (name found : Text) × (record_.local_path ≡ codes "media/files/" ++ name)
      × (lookup name files ≡ some found)
      × (hash found ≡ hash body)

  -- No file that was there has changed.
  abbrev Kept : Stored → Stored → Type 0
  Kept files after =
      (name body : Text) → lookup name files ≡ some body → lookup name after ≡ some body

  abbrev pub Saved : ℕ → Text → Stored → MediaRecord → Stored → Type 0
  Saved max_bytes body files rec after =
      (is_done rec.status ≡ true)
      × (length body ≤ max_bytes)
      × (rec.sha256 ≡ hash body)
      × (rec.size ≡ length body)
      × Holds rec body after
      × Kept files after
      × IsAddressed after

  abbrev pub SavesOrFails : ℕ → Reply → Stored → MediaRecord × Stored → Type 0
  SavesOrFails max_bytes answer files done =
      ((done.0.status ≡ failed) × (done.1 ≡ files))
      ⊎ ((r : Response) × (answer ≡ got r) × Saved max_bytes r.body files done.0 done.1)

  text_eq_cases : (s t : Text) → (s ≡ t) ⊎ (s ≢ t)
  text_eq_cases s t = ground (arith, text_eq_iff s t)

  insert-Kept :
      (name body : Text) (files : Stored)
      → lookup name files ≡ none
      → Kept files (insert name body files)
  insert-Kept name body files absent other found h = elim (text_eq_cases name other) [
    | inl e ↦
        absurd
          (none_ne_some (sym absent ∙ subst (λ (z : Text). lookup z files ≡ some found) (sym e) h))
    | inr n ↦ lookup-insert_ne name other body files n ∙ h
  ]

  insert-IsAddressed :
      (ext body : Text) (files : Stored)
      → IsAddressed files
      → IsAddressed (insert (media_name (hash body) ext) body files)
  insert-IsAddressed ext body files good other found h =
      elim (text_eq_cases (media_name (hash body) ext) other) [
        | inl e ↦
            let same : body ≡ found = ap_some (
              sym (lookup-insert_same (media_name (hash body) ext) body files)
              ∙ subst
                  (λ (z : Text).
                    lookup z (insert (media_name (hash body) ext) body files) ≡ some found)
                  (sym e) h) in
            (ext, sym e ∙ ap (λ (b : Text). media_name (hash b) ext) same)
        | inr n ↦
            good other found
              (sym (lookup-insert_ne (media_name (hash body) ext) other body files n) ∙ h)
      ]

  store_media-SavesOrFails :
      (calls : Calls) (max_bytes : ℕ) (url ext : Text) (r : Response) (files : Stored)
      → IsAddressed files
      → length r.body ≤ max_bytes
      → SavesOrFails max_bytes
          (got r)
          files
          (store_media calls url (media_type r.content_type) (hash r.body) ext r.body files)
  unfolding store_media
  store_media-SavesOrFails calls max_bytes url ext r files good l =
      let name = media_name (hash r.body) ext in
      elim (Option-cases (lookup name files)) [
        | inr (found, e) ↦
            let (ext', k) = good name found e in
            rw e (
              inr (
                r,
                refl,
                (
                  refl,
                  l,
                  refl,
                  refl,
                  (name, found, refl, e, sym (same_hash r.body found ext ext' k)),
                  (λ n b h. h),
                  good,
                ),
              ))
        | inl e ↦ rw e (elim (Bool-cases calls.rename) [
          | inr c ↦ rw c (inl (refl, refl))
          | inl c ↦ rw c (
              inr (
                r,
                refl,
                (
                  refl,
                  l,
                  refl,
                  refl,
                  (name, r.body, refl, lookup-insert_same name r.body files, refl),
                  insert-Kept name r.body files e,
                  insert-IsAddressed ext r.body files good,
                ),
              ))
        ])
      ]

  save_media-SavesOrFails :
      (extension : Text → Text → Text) (calls : Calls) (max_bytes : ℕ) (url : Text) (r : Response)
      (files : Stored)
      → max_bytes < 9223372036854775807
      → IsAddressed files
      → SavesOrFails max_bytes (got r) files (save_media hash extension calls max_bytes url r files)
  unfolding save_media
  save_media-SavesOrFails extension calls max_bytes url r files m good =
      elim (Bool-cases (ltb_ℤ (pos max_bytes) r.content_length)) [
        | inl a ↦ rw a (inl (refl, refl))
        | inr a ↦ rw a (elim (Bool-cases (not (calls.create_temp && calls.copy))) [
          | inl b ↦ rw b (inl (refl, refl))
          | inr b ↦
              rw b
                (elim (Bool-cases (ltb max_bytes (length (take (reader_limit max_bytes) r.body)))) [
                  | inl c ↦ rw c (inl (refl, refl))
                  | inr c ↦
                      rw c (elim (Bool-cases (not (calls.sync && calls.close && calls.mkdir))) [
                        | inl d ↦ rw d (inl (refl, refl))
                        | inr d ↦ rw d (
                            let short : length (take (reader_limit max_bytes) r.body) ≤ max_bytes =
                              not_ltb max_bytes _ c in
                            let whole = take_limit max_bytes r.body m short in
                            rw whole (
                              store_media-SavesOrFails calls max_bytes url
                                (extension url r.content_type) r files good (rw whole at short)))
                      ])
                ])
        ])
      ]

  -- With a limit below the largest int64, and in a directory where every file has the path of its
  -- own SHA-256, `downloadOneMedia` keeps that so and changes no file that is there, whichever of
  -- its calls fail. It reports a failure and changes nothing, or there was a response, whose whole
  -- body is at most the limit, and the record has the body's hash and length and the path of a file
  -- with that hash.
  pub download_one_media-SavesOrFails :
      (extension : Text → Text → Text) (calls : Calls) (max_bytes : ℕ) (url : Text) (answer : Reply)
      (files : Stored)
      → max_bytes < 9223372036854775807
      → IsAddressed files
      → SavesOrFails max_bytes answer files
          (download_one_media hash extension calls max_bytes url answer files)
  unfolding download_one_media
  download_one_media-SavesOrFails extension calls max_bytes url (got r) files m good =
      save_media-SavesOrFails extension calls max_bytes url r files m good
  download_one_media-SavesOrFails extension calls max_bytes url bad_request files m good =
      inl (refl, refl)
  download_one_media-SavesOrFails extension calls max_bytes url (rejected r) files m good =
      inl (refl, refl)
  download_one_media-SavesOrFails extension calls max_bytes url cancelled files m good =
      inl (refl, refl)
  download_one_media-SavesOrFails extension calls max_bytes url (exhausted e) files m good =
      inl (refl, refl)
