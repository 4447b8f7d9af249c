-- ===== src/Routes/Chunks/Reread.antt =====
-- src/routes/chunks.rs: a download gives back what an upload stored.
use ovp_data_api.Base.{
  ℕ, ◌+◌, Text, Uuid, Bool, true, false, Option, none, some, List, [], ◌∷◌, ok, ◌≡◌, refl, sym, ap,
  ◌∙◌, arith, select, select-append, select_one,
}
use ovp_data_api.Ids.{PseudoId, pseudo_eq}
use ovp_data_api.Ids
use ovp_data_api.Ids.Shape.{pseudo_eq_iff}
use ovp_data_api.Events.{ChunkUploaded}
use ovp_data_api.Storage.{ObjectStore}
use ovp_data_api.App.Inversion.{>>=-ok, transaction-ok, checked-ok}
use ovp_data_api.App.{AppState, World, Handler, exec, checked, pure, lift, transaction, ◌>>=◌, ◌>>◌}
use ovp_data_api.Db.{ChunkRow}
use ovp_data_api.Db.Chunks
use ovp_data_api.Db.Chunks.{of_seq, of_stream, next_seq}
use ovp_data_api.Db.Chunks.Seq.{next_seq_free}
use ovp_data_api.Routes.Chunks.Headers.{ChunkHeaders, HeaderMap, RequestLib, parse_chunk_headers}
use ovp_data_api.Routes.Chunks.Upload.{Stored, store_chunk-Stored}
use ovp_data_api.Routes.Chunks.{
  UploadResponse, max_chunk_bytes, store_chunk, upload, upload_tx, emit, download,
}

-- The store reads back what a put that succeeded wrote.
abbrev pub ReadsBack : {St : Type 0} → ObjectStore St → Type 0
ReadsBack {St = St} store =
    (k : Text) (b : List ℕ) (s s' : St) → store.put k b s ≡ (ok tt, s') → store.get k s' ≡ ok b

module _ {St : Type 0} (state : AppState St) (lib : RequestLib) where
  open state use {store}

  Stored-found :
      (session_id : Uuid) (p : PseudoId) (h : ChunkHeaders) (bytes : List ℕ) (w w' : World St)
      (r : UploadResponse)
      → (s : Stored state lib session_id p h bytes w r w')
      → select (of_seq session_id p r.seq) w'.db.chunks ≡ s.row ∷ []
  Stored-found session_id p h bytes w w' r s =
      let seq : ℕ = next_seq session_id p w.db.chunks in
      let same : r.seq ≡ seq = s.answered.0 ∙ s.numbered in
      let q : ChunkRow → Bool = of_seq session_id p seq in
      let mine : q s.row ≡ true =
        ground (arith, s.of_session, s.of_pseudo, s.numbered, pseudo_eq_iff p p) in
      ap (λ n. select (of_seq session_id p n) w'.db.chunks) same
      ∙ (ap (select q) s.appended
          ∙ (select-append q w.db.chunks (s.row ∷ [])
              ∙ rw (next_seq_free session_id p w.db.chunks) (select_one q s.row mine)))

  Stored-download :
      (session_id : Uuid) (raw : Text) (p : PseudoId) (h : ChunkHeaders) (bytes : List ℕ)
      (w w' v : World St) (r : UploadResponse)
      → ReadsBack store
      → Ids.new_or_mixed raw ≡ ok p
      → Stored state lib session_id p h bytes w r w'
      → v.db ≡ w'.db
      → v.objects ≡ w'.objects
      → (download state lib session_id raw r.seq v).0 ≡ ok bytes
  unfolding download Chunks.get
  Stored-download session_id raw p h bytes w w' v r reads valid s db objects =
      let back : store.get s.row.s3_key w'.objects ≡ ok bytes =
        reads s.row.s3_key bytes w.objects w'.objects s.put in
      rw (valid, db, Stored-found session_id p h bytes w w' r s, objects, back) refl

  -- A new upload left its row and object; what it answers names the row.
  upload_tx-Stored :
      (service : Text) (session_id : Uuid) (p : PseudoId) (h : ChunkHeaders) (body : List ℕ)
      (found : Option ChunkRow) (w w' : World St) (r : UploadResponse) (d : Option ChunkUploaded)
      → r.deduplicated ≡ false
      → upload_tx state lib service session_id p h body found w ≡ (ok (r, d), w')
      → (bytes : List ℕ) × (v : World St) × (a : UploadResponse) × (lib.to_bytes body
            (max_chunk_bytes + 1)
          ≡ some bytes)
        × Stored state lib session_id p h bytes w a v
        × (v ≡ w')
        × (a ≡ r)
  unfolding upload_tx
  upload_tx-Stored service session_id p h body (some existing) w w' r d new e = ground arith
  upload_tx-Stored service session_id p h body none w w' r d new e =
      let (done, w₁, got, last) =
        >>=-ok (store_chunk state lib service session_id p h body w) _ (r, d) w' e in
      let (bytes, whole, fits, s) =
        store_chunk-Stored state lib service session_id p h body w w₁ done.0 done.1 got in
      (bytes, w₁, done.0, whole, s, ground arith, ground arith)

  emit-keeps :
      (d : Option ChunkUploaded) (w w' : World St)
      → emit state lib d w ≡ (ok tt, w')
      → (w'.db ≡ w.db) × (w'.objects ≡ w.objects)
  unfolding emit
  emit-keeps none w w' e = (ground arith, ground arith)
  emit-keeps (some d) w w' e = (ground arith, ground arith)

  -- If the store reads back what was put, then after an upload that was no retry a download of the
  -- number that it answered gives the bytes of its body.
  pub upload-download :
      (service : Text) (session_id : Uuid) (raw : Text) (headers : HeaderMap) (body : List ℕ)
      (w w' : World St) (r : UploadResponse)
      → ReadsBack store
      → r.deduplicated ≡ false
      → upload state lib service session_id raw headers body w ≡ (ok r, w')
      → (bytes : List ℕ) × (lib.to_bytes body (max_chunk_bytes + 1) ≡ some bytes)
        × ((download state lib session_id raw r.seq w').0 ≡ ok bytes)
  unfolding upload Chunks.lookup_by_client_id
  upload-download service session_id raw headers body w w' r reads new e =
      let (p, w₁, valid, e₁) = >>=-ok (checked (Ids.new_or_mixed raw) w) _ r w' e in
      let (valid', same₁) = checked-ok (Ids.new_or_mixed raw) w p w₁ valid in
      let (h, w₂, parsed, e₂) = >>=-ok (lift (parse_chunk_headers lib headers) w₁) _ r w' e₁ in
      let (done, w₃, ran, e₃) =
        >>=-ok (transaction (inner p h) w₂)
          (λ (x : UploadResponse × Option ChunkUploaded). emit state lib x.1 >> pure x.0) r w' e₂ in
      let (x, w₄, sent, e₄) =
        >>=-ok (emit state lib done.1 w₃) (λ (_ : Unit {0}). pure done.0) r w' e₃ in
      let answer : done.0 ≡ r = ground arith in
      let last : w' ≡ w₄ = ground arith in
      let (bytes, v, a, whole, s, at, same) =
        upload_tx-Stored service session_id p h body _ w₂ w₃ done.0 done.1
          (ap (λ (y : UploadResponse). y.deduplicated) answer ∙ new)
          (transaction-ok w₂.db (inner p h w₂) done w₃ ran) in
      let (db, objects) = emit-keeps done.1 w₃ w₄ sent in
      (
        bytes,
        whole,
        ap (λ (y : UploadResponse). (download state lib session_id raw y.seq w').0)
              (sym (same ∙ answer))
            ∙ Stored-download session_id raw p h bytes w₂ v w' a reads valid' s
                (ap (λ (y : World St). y.db) last ∙ (db ∙ ap (λ (y : World St). y.db) (sym at)))
                (ap (λ (y : World St). y.objects) last
                  ∙ (objects ∙ ap (λ (y : World St). y.objects) (sym at))),
      )
    where
      inner : PseudoId → ChunkHeaders → Handler St (UploadResponse × Option ChunkUploaded)
      inner p h =
          exec (Chunks.lookup_by_client_id session_id p h.client_chunk_id)
          >>= upload_tx state lib service session_id p h body
