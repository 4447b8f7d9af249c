-- ===== src/Db/Uniform/Tags.antt =====
-- src/db/uniform.rs: the tag that guards a patch.
use ovp_data_api.Base.{
  ◌+◌, Uuid, DateTime, false, Bool-cases, inl, inr, Option, some, List, [], ◌∷◌, map, Result, ok,
  err, ◌≡◌, ◌≢◌, refl, sym, ap, ◌∙◌, arith, select, update, select-update,
}
use ovp_data_api.Error.{AppError, precondition_failed, not_found}
use ovp_data_api.Ids.{PseudoId, ETag, etag_eq}
use ovp_data_api.Ids.Shape.{etag_eq_iff}
use ovp_data_api.App.Inversion.{>>=-ok, exec-ok, reading-ok, transaction-ok}
use ovp_data_api.App.{World, lift, exec}
use ovp_data_api.Db.{Db, StoredRow, fetch_or, fetch_one, reading}
use ovp_data_api.Db.Uniform.{
  ResourceTable, Table, session_segments, session_beats, session_scenes, UniformRow, PatchInput,
  rows_of, with_rows, has_id, row_from_pg, fetch, apply_patch, written, update_stored, author_ok,
  raw, read_pseudo, pseudo_column,
}
use ovp_data_api.Db.Uniform.Ops.{patch, require_etag}

-- The row of an id, as `fetch` reads it.
abbrev found : ResourceTable → Uuid → Db → Result AppError StoredRow
found rt id db = fetch_or not_found (select (has_id id) (rows_of rt.table db))

pub rows-with_rows :
    (t : Table) (rows : List StoredRow) (db : Db) → rows_of t (with_rows t rows db) ≡ rows
rows-with_rows session_segments rows db = refl
rows-with_rows session_beats rows db = refl
rows-with_rows session_scenes rows db = refl

module _ (f : StoredRow → StoredRow) where
  updated :
      (xs : List StoredRow) (new : Db) (r : StoredRow) (db' : Db)
      → reading new (fetch_one (map f xs)) ≡ ok (r, db')
      → (s : StoredRow) × (r ≡ f s) × (fetch_or not_found (map f xs) ≡ ok r) × (db' ≡ new)
  updated [] new r db' e = cc
  updated (x ∷ xs) new r db' e = (x, ground arith, ground arith, ground arith)

  updated-found :
      (rt : ResourceTable) (id : Uuid) (db : Db) (r : StoredRow) (db' : Db)
      → ((s : StoredRow) → (f s).id ≡ s.id)
      → reading
          (with_rows rt.table (update (has_id id) f (rows_of rt.table db)) db)
          (fetch_one (map f (select (has_id id) (rows_of rt.table db))))
        ≡ ok (r, db')
      → (s : StoredRow) × (r ≡ f s) × (found rt id db' ≡ ok r)
  updated-found rt id db r db' keeps e =
      let (s, is, now, left) = updated (select (has_id id) (rows_of rt.table db)) _ r db' e in
      (
        s,
        is,
        ap (found rt id) left
            ∙ (ap (λ rows. fetch_or not_found (select (has_id id) rows))
                  (rows-with_rows rt.table _ db)
                ∙ (ap (fetch_or not_found)
                      (select-update (has_id id) f (rows_of rt.table db) (λ x h. rw (keeps x) h))
                    ∙ now)),
      )

update_stored-found :
    (rt : ResourceTable) (id : Uuid) (p : UniformRow) (etag : ETag) (author : Option PseudoId)
    (now : DateTime) (db db' : Db) (r : StoredRow)
    → update_stored rt id p etag author now db ≡ ok (r, db')
    → (r.etag ≡ etag) × (found rt id db' ≡ ok r)
unfolding update_stored
update_stored-found rt id p etag author now db db' r e =
    elim (Bool-cases (author_ok (raw author))) [
      | inl valid ↦
          let same : update_stored rt id p etag author now db
              ≡ reading
                  (with_rows rt.table
                    (update (has_id id) (written rt.shape p etag author now) (rows_of rt.table db))
                    db)
                  (fetch_one (
                    map (written rt.shape p etag author now)
                      (select (has_id id) (rows_of rt.table db)))) =
            rw valid refl in
          let (s, is, reads) =
            updated-found (written rt.shape p etag author now) rt id db r db' (λ x. refl)
              (sym same ∙ e) in
          (ap (λ (x : StoredRow). x.etag) is, reads)
      | inr invalid ↦ ground arith
    ]

row_from_pg-etag :
    (rt : ResourceTable) (s : StoredRow) (r : UniformRow)
    → row_from_pg rt s ≡ ok r
    → r.etag ≡ s.etag
unfolding row_from_pg
row_from_pg-etag rt s r = elim (read_pseudo (pseudo_column rt.shape s)) [
  | err x ↦ λ e. ground arith
  | ok q ↦ elim (read_pseudo s.author_user_pseudo_id) [
    | err x ↦ λ e. ground arith
    | ok a ↦ λ e. ground arith
  ]
]

module _ {St : Type 0} where
  -- A patch under a tag that is not the row's.
  stale :
      (rt : ResourceTable) (id : Uuid) (t : ETag) (q : PatchInput) (w : World St) (s : StoredRow)
      (r : UniformRow)
      → found rt id w.db ≡ ok s
      → row_from_pg rt s ≡ ok r
      → etag_eq t r.etag ≡ false
      → patch rt id (some t) q w ≡ (err (precondition_failed r.etag), w)
  unfolding patch fetch
  stale rt id t q w s r here read other = rw (here, read, other) refl

  -- What a patch that succeeds leaves: its row, under the tag that it drew.
  patch-found :
      (rt : ResourceTable) (id : Uuid) (t : ETag) (p : PatchInput) (w w' : World St)
      (r : UniformRow)
      → patch rt id (some t) p w ≡ (ok r, w')
      → (u : StoredRow) × (found rt id w'.db ≡ ok u)
        × (row_from_pg rt u ≡ ok r)
        × (r.etag ≡ w.etags w.drawn)
  unfolding patch fetch
  patch-found rt id t p w w' r e =
      let e₀ = transaction-ok w.db _ r w' e in
      let (s, w₁, got, e₁) = >>=-ok (exec (fetch rt id) w) _ r w' e₀ in
      let (here, same₁) = reading-ok (found rt id w.db) w s w₁ got in
      let (old, w₂, read, e₂) = >>=-ok (lift (row_from_pg rt s) w₁) _ r w' e₁ in
      let (_, w₃, tagged, e₃) = >>=-ok (lift (require_etag (some t) old) w₂) _ r w' e₂ in
      let tag : ETag = w₃.etags w₃.drawn in
      let w₄ : World St = record w₃ { drawn = w₃.drawn + 1 } in
      let (u, w₅, upd, e₅) =
        >>=-ok (exec (update_stored rt id (apply_patch rt p old) tag p.author_user_pseudo_id) w₄) _
          r w' e₃ in
      let (db, done, left) =
        exec-ok
          (update_stored rt id (apply_patch rt p old) tag p.author_user_pseudo_id w₄.now w₄.db) w₄ u
          w₅ upd in
      let (tagged_u, reads) =
        update_stored-found rt id (apply_patch rt p old) tag p.author_user_pseudo_id w₄.now w₄.db db
          u done in
      let as_row : row_from_pg rt u ≡ ok r =
        ap (λ (x : Result AppError UniformRow × World St). x.0) e₅ in
      let last : w₅ ≡ w' = ap (λ (x : Result AppError UniformRow × World St). x.1) e₅ in
      let same₂ : w₁ ≡ w₂ = ap (λ (x : Result AppError UniformRow × World St). x.1) read in
      let same₃ : w₂ ≡ w₃ = ap (λ (x : Result AppError (Unit {0}) × World St). x.1) tagged in
      let same : w₃ ≡ w = sym same₃ ∙ (sym same₂ ∙ same₁) in
      (
        u,
        ap (λ (x : World St). found rt id x.db) (sym last ∙ left) ∙ reads,
        as_row,
        row_from_pg-etag rt u r as_row ∙ (tagged_u ∙ ap (λ (x : World St). x.etags x.drawn) same),
      )

  -- A lost update is refused: once a patch under a tag has succeeded, and drew another tag, every
  -- patch under the first tag fails with the tag that the row has now, and changes nothing.
  pub patch-patch :
      (rt : ResourceTable) (id : Uuid) (t : ETag) (p q : PatchInput) (w w' : World St)
      (r : UniformRow)
      → patch rt id (some t) p w ≡ (ok r, w')
      → w.etags w.drawn ≢ t
      → patch rt id (some t) q w' ≡ (err (precondition_failed (w.etags w.drawn)), w')
  patch-patch rt id t p q w w' r e fresh =
      let (u, here, read, drawn) = patch-found rt id t p w w' r e in
      let other : etag_eq t r.etag ≡ false = ground (arith, etag_eq_iff t r.etag) in
      stale rt id t q w' u r here read other
      ∙ ap (λ (x : ETag). (err (precondition_failed x), w')) drawn
