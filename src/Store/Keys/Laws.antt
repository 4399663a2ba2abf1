-- ===== src/Store/Keys/Laws.antt =====
-- internal/store/store.go and api_keys.go: what the methods on API keys promise one another.
use web_scraper.Base.{
  ℕ, ◌≡◌, ◌≢◌, refl, sym, ap, ◌∙◌, ◌⊎◌, inl, inr, true, false, ◌&&◌, Option, none, some, List, [],
  ◌∷◌, ◌++◌, Text, codes, arith, find_where, find_where-none_of, find_where-append,
  find_where-Among, count_where, count_where_pos, count_where-none_of, update_where, Among,
  Among-update_where_inv, Among-unique, Distinct, &&-eq-true, Bool-cases, Option-cases, text_eq,
  text_eq_iff, text_eq_refl, ==-refl, ◌==◌,
}
use mathlib.Core.Bool.{false≢true}
use web_scraper.Base.Int.{ℤ}
use web_scraper.Model.{Job}
use web_scraper.Store.Db.{
  KeyRow, JobRow, Db, Result, ok, err, no_rows, db_error, StoreError, up, Postgres,
}
use web_scraper.Store.Jobs.{has_id, scan_job}
use web_scraper.Store.Keys.{
  CreatedApiKey, key_has_id, unlocks, revoke, key_is_new, new_key, insert_key, scan_key,
  create_api_key, authenticate_api_key, revoke_api_key, readable, get_job_by_api_key,
  requests_per_minute,
}

unlocks-revoke : (h : Text) (now : ℕ) (k : KeyRow) → unlocks h (revoke now k) ≡ false
unfolding unlocks
unlocks-revoke h now k = ground arith

unlocks_other : (h : Text) (k : KeyRow) → k.key_hash ≢ h → unlocks h k ≡ false
unfolding unlocks
unlocks_other h k n = elim (Bool-cases (text_eq k.key_hash h)) [
  | inl e ↦ absurd (n ((text_eq_iff k.key_hash h).0 e))
  | inr e ↦ rw e refl
]

key_has_id_self : (k : KeyRow) → key_has_id k.id k ≡ true
unfolding key_has_id
key_has_id_self k = ==-refl k.id

revoked_cases :
    (h : Text) (now : ℕ) (keys : List KeyRow) (k y : KeyRow)
    → Distinct KeyRow.key_hash keys
    → Among k keys
    → h ≡ k.key_hash
    → ((a : KeyRow) × Among a keys
        × (((key_has_id k.id a ≡ true) × (y ≡ revoke now a))
            ⊎ ((key_has_id k.id a ≡ false) × (y ≡ a))))
    → unlocks h y ≡ false
revoked_cases h now keys k y d m e (a, n, inl (_, q)) = rw q (unlocks-revoke h now a)
revoked_cases h now keys k y d m e (a, n, inr (t, q)) = rw q (
    unlocks_other h a λ s.
      let same : a ≡ k = Among-unique KeyRow.key_hash keys a k d n m (s ∙ e) in
      absurd (false≢true (sym (rw same at t) ∙ key_has_id_self k)))

revoke_twice :
    (u now now' : ℕ) (keys : List KeyRow)
    → update_where (key_has_id u) (revoke now') (update_where (key_has_id u) (revoke now) keys)
      ≡ update_where (key_has_id u) (revoke now) keys
unfolding update_where key_has_id
revoke_twice u now now' [] = refl
revoke_twice u now now' (k ∷ keys) = ground (arith, revoke_twice u now now' keys)

has_id-same : (u : ℕ) (r : JobRow) → has_id u r ≡ true → r.id ≡ u
unfolding has_id
has_id-same u r h = ground arith

failed_read : (e : StoreError) (job : Job) → ¬ (◌≡◌ {A = Result Job} (err e) (ok job))
failed_read e job h = cc

read_value : (a b : Job) → ◌≡◌ {A = Result Job} (ok a) (ok b) → a ≡ b
read_value a b h = cc

module _ (pg : Postgres) (hash : Text → Text) where
  open pg use {parse_uuid}

  revoked_row :
      (h : Text) (now : ℕ) (db : Db) (k y : KeyRow)
      → Distinct KeyRow.key_hash db.api_keys
      → Among k db.api_keys
      → h ≡ k.key_hash
      → Among y (update_where (key_has_id k.id) (revoke now) db.api_keys)
      → unlocks h y ≡ false
  revoked_row h now db k y d m e n =
      revoked_cases h now db.api_keys k y d m e
        (Among-update_where_inv (key_has_id k.id) (revoke now) db.api_keys y n)

  create_fails :
      (fresh now : ℕ) (name : Text) (rpm : ℤ) (db db' : Db) (c : CreatedApiKey)
      → ¬ (create_api_key pg hash up fresh now none name rpm db ≡ (ok c, db'))
  unfolding create_api_key
  create_fails fresh now name rpm db db' c h = ground arith

  create_inserts :
      (fresh now : ℕ) (s name : Text) (rpm : ℤ) (db db' : Db) (c : CreatedApiKey)
      → create_api_key pg hash up fresh now (some s) name rpm db ≡ (ok c, db')
      → insert_key pg hash up
          (new_key fresh now name
            (codes "ws_live_" ++ s)
            (hash (codes "ws_live_" ++ s))
            (requests_per_minute rpm))
          (codes "ws_live_" ++ s)
          db
        ≡ (ok c, db')
  unfolding create_api_key
  create_inserts fresh now s name rpm db db' c h = ground arith

  read_row :
      (id raw : Text) (db : Db) (job : Job)
      → (get_job_by_api_key pg hash up id raw db).0 ≡ ok job
      → (r : JobRow) × Among r db.jobs
        × (parse_uuid id ≡ some r.id)
        × (readable pg hash raw db.api_keys r ≡ true)
        × (job ≡ scan_job pg r)
  unfolding get_job_by_api_key
  read_row id raw db job h = elim (Option-cases (parse_uuid id)) [
    | inl e ↦ absurd (failed_read db_error job (rw e at h))
    | inr (u, e) ↦
        elim (Option-cases
          (find_where (λ j. has_id u j && readable pg hash raw db.api_keys j) db.jobs)) [
            | inl f ↦ absurd (failed_read no_rows job (rw f at (rw e at h)))
            | inr (r, f) ↦
                let (m, t) = find_where-Among _ db.jobs r f in
                let (same, seen) = &&-eq-true _ _ t in
                (
                  r,
                  m,
                  e ∙ ap some (sym (has_id-same u r same)),
                  seen,
                  sym (read_value (scan_job pg r) job (rw f at (rw e at h))),
                )
          ]
  ]

  readable-key :
      (raw : Text) (keys : List KeyRow) (r : JobRow)
      → readable pg hash raw keys r ≡ true
      → (k : KeyRow) × Among k keys × ((k.id == r.requested_by && unlocks (hash raw) k) ≡ true)
  unfolding readable
  readable-key raw keys r h = count_where_pos _ keys (λ e. ground arith)

  key_test :
      (r : JobRow) (raw : Text) (k : KeyRow)
      → (k.id == r.requested_by && unlocks (hash raw) k) ≡ true
      → (k.id ≡ r.requested_by) × (k.key_hash ≡ hash raw) × (k.revoked_at ≡ none)
  unfolding unlocks
  key_test r raw k h = ground (arith, text_eq_iff k.key_hash (hash raw))

  -- After a revocation whose round trip goes through the key does not authenticate, if no two keys
  -- have the same hash and the id names the key.
  pub authenticate-revoke :
      (now now' : ℕ) (id raw : Text) (db : Db) (k : KeyRow)
      → Distinct KeyRow.key_hash db.api_keys
      → Among k db.api_keys
      → parse_uuid id ≡ some k.id
      → hash raw ≡ k.key_hash
      → (authenticate_api_key pg hash up now' raw (revoke_api_key pg hash up now id db).1).0
        ≡ err no_rows
  unfolding authenticate_api_key revoke_api_key
  authenticate-revoke now now' id raw db k d m p h = rw p (
      rw (
        find_where-none_of (unlocks (hash raw))
          (update_where (key_has_id k.id) (revoke now) db.api_keys)
          (λ y n. revoked_row (hash raw) now db k y d m h n)))

  -- Revoking again changes nothing: the time of the first revocation stays.
  revoke-revoke :
      (now now' : ℕ) (id : Text) (db : Db)
      → (revoke_api_key pg hash up now' id (revoke_api_key pg hash up now id db).1).1
        ≡ (revoke_api_key pg hash up now id db).1
  unfolding revoke_api_key
  revoke-revoke now now' id db = elim (Option-cases (parse_uuid id)) [
    | inl e ↦ rw e
    | inr (u, e) ↦ rw e (
        ap (λ (keys : List KeyRow). record db { api_keys = keys })
          (revoke_twice u now now' db.api_keys))
  ]

  insert_key-ok :
      (row : KeyRow) (raw : Text) (db db' : Db) (c : CreatedApiKey)
      → insert_key pg hash up row raw db ≡ (ok c, db')
      → (c.key ≡ scan_key pg hash row)
        × (c.secret ≡ raw)
        × (db'.api_keys ≡ db.api_keys ++ row ∷ [])
        × (count_where (λ k. text_eq (KeyRow.key_hash k) row.key_hash) db.api_keys ≡ 0)
  unfolding insert_key key_is_new
  insert_key-ok row raw db db' c h = ground arith

  -- the key that has just been stored is the first that its secret unlocks
  stored-unlocks :
      (h : Text) (keys : List KeyRow) (row : KeyRow)
      → row.key_hash ≡ h
      → row.revoked_at ≡ none
      → count_where (λ k. text_eq (KeyRow.key_hash k) row.key_hash) keys ≡ 0
      → find_where (unlocks h) (keys ++ row ∷ []) ≡ some row
  stored-unlocks h keys row e r z =
      find_where-append (unlocks h) keys (row ∷ []) (
        find_where-none_of (unlocks h) keys
          λ k m. unfold unlocks in rw (rw e at (count_where-none_of _ keys z k m)) refl)
      ∙ (unfold unlocks find_where in rw (e, r, text_eq_refl) refl)

  -- A key whose creation has been answered authenticates in the tables that it left, as the key
  -- that was returned, when the round trips go through.
  pub authenticate-create :
      (fresh now now' : ℕ) (secret : Option Text) (name : Text) (rpm : ℤ) (db db' : Db)
      (c : CreatedApiKey)
      → create_api_key pg hash up fresh now secret name rpm db ≡ (ok c, db')
      → (authenticate_api_key pg hash up now' c.secret db').0 ≡ ok c.key
  unfolding authenticate_api_key
  authenticate-create fresh now now' none name rpm db db' c h =
      absurd (create_fails fresh now name rpm db db' c h)
  authenticate-create fresh now now' (some s) name rpm db db' c h =
      let raw = codes "ws_live_" ++ s in
      let row = new_key fresh now name raw (hash raw) (requests_per_minute rpm) in
      let (e, f, g, z) =
        insert_key-ok row raw db db' c (create_inserts fresh now s name rpm db db' c h) in
      rw (e, f, g)
        (rw (
          stored-unlocks (hash raw) db.api_keys row (unfold new_key in refl)
            (unfold new_key in refl) z))

  -- A job that is read with an API key is the one of that id, it was requested with that key, and
  -- the key is not revoked.
  pub get_job_by_api_key-authorized :
      (id raw : Text) (db : Db) (job : Job)
      → (get_job_by_api_key pg hash up id raw db).0 ≡ ok job
      → (r : JobRow) × (k : KeyRow) × Among r db.jobs
        × Among k db.api_keys
        × (k.id ≡ r.requested_by)
        × (k.key_hash ≡ hash raw)
        × (k.revoked_at ≡ none)
        × (parse_uuid id ≡ some r.id)
        × (job ≡ scan_job pg r)
  get_job_by_api_key-authorized id raw db job h =
      let (r, m, same, t, e) = read_row id raw db job h in
      let (k, n, u) = readable-key raw db.api_keys r t in
      let (a, b, c) = key_test r raw k u in (r, k, m, n, a, b, c, same, e)
