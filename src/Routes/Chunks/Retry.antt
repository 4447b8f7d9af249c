-- ===== src/Routes/Chunks/Retry.antt =====
-- src/routes/chunks.rs: what a retry of an upload does.
use ovp_data_api.Base.{
  ℕ, Text, Uuid, Bool, true, Option, none, some, List, [], ◌∷◌, ok, ◌≡◌, refl, sym, ap, ◌∙◌, arith,
  select, select-append, select_one, first, text_eq_refl,
}
use ovp_data_api.Ids.{PseudoId, pseudo_eq}
use ovp_data_api.Ids
use ovp_data_api.Ids.Shape.{pseudo_eq_iff}
use ovp_data_api.Events.{ChunkUploaded}
use ovp_data_api.App.Inversion.{>>=-ok, transaction-ok, checked-ok}
use ovp_data_api.App.{AppState, World, Handler, exec, checked, pure, lift, transaction, ◌>>=◌, ◌>>◌}
use ovp_data_api.Db.{Db, ChunkRow}
use ovp_data_api.Db.Chunks
use ovp_data_api.Db.Chunks.{of_client, of_stream}
use ovp_data_api.Routes.Chunks.Headers.{ChunkHeaders, HeaderMap, RequestLib, parse_chunk_headers}
use ovp_data_api.Routes.Chunks.Upload.{Stored, store_chunk-Stored}
use ovp_data_api.Routes.Chunks.{UploadResponse, store_chunk, upload, upload_tx, emit}

first-none : {A : Type 0} → (xs : List A) → first xs ≡ none → xs ≡ []
unfolding first
first-none [] e = refl
first-none (x ∷ xs) e = cc

first_one : {A : Type 0} → (x : A) → first (x ∷ []) ≡ some x
unfolding first
first_one x = refl

-- The row that a request's answer names is the first of its client id.
record Answered (session_id : Uuid) (p : PseudoId) (client : Text) (r : UploadResponse)
    (chunks : List ChunkRow) : Type 0 where
  row : ChunkRow
  found : first (select (of_client session_id p client) chunks) ≡ some row
  same_seq : r.seq ≡ row.seq
  same_key : r.s3_key ≡ row.s3_key

module _ {St : Type 0} (state : AppState St) (lib : RequestLib) where
  Stored-Answered :
      (session_id : Uuid) (p : PseudoId) (h : ChunkHeaders) (bytes : List ℕ) (w w' : World St)
      (r : UploadResponse)
      → select (of_client session_id p h.client_chunk_id) w.db.chunks ≡ []
      → Stored state lib session_id p h bytes w r w'
      → Answered session_id p h.client_chunk_id r w'.db.chunks
  Stored-Answered session_id p h bytes w w' r fresh s = record {
    row = s.row;
    found =
        ap (λ cs. first (select q cs)) s.appended
        ∙ ap first (select-append q w.db.chunks (s.row ∷ []) ∙ rw (fresh) (select_one q s.row mine))
        ∙ first_one s.row;
    same_seq = s.answered.0;
    same_key = s.answered.1;
  }
    where
      q : ChunkRow → Bool
      q = of_client session_id p h.client_chunk_id

      mine : q s.row ≡ true
      mine = ground (
        arith,
        s.of_session,
        s.of_pseudo,
        s.of_client_id,
        text_eq_refl h.client_chunk_id,
        pseudo_eq_iff p p,
      )

  upload_tx-Answered :
      (service : Text) (session_id : Uuid) (p : PseudoId) (h : ChunkHeaders) (body : List ℕ)
      (found : Option ChunkRow) (w w' : World St) (r : UploadResponse) (d : Option ChunkUploaded)
      → first (select (of_client session_id p h.client_chunk_id) w.db.chunks) ≡ found
      → upload_tx state lib service session_id p h body found w ≡ (ok (r, d), w')
      → Answered session_id p h.client_chunk_id r w'.db.chunks
  unfolding upload_tx
  upload_tx-Answered service session_id p h body (some existing) w w' r d looked e = record {
    row = existing;
    found =
        ap (λ (v : World St). first (select (of_client session_id p h.client_chunk_id) v.db.chunks))
          (sym kept)
        ∙ looked;
    same_seq = ground arith;
    same_key = ground arith;
  }
    where
      kept : w ≡ w'
      kept = ground arith
  upload_tx-Answered service session_id p h body none w w' r d looked e =
      let (done, w₁, got, last) =
        >>=-ok (store_chunk state lib service session_id p h body w) _ (r, d) w' e in
      let (bytes, whole, fits, s) =
        store_chunk-Stored state lib service session_id p h body w w₁ done.0 done.1 got in
      let a = Stored-Answered session_id p h bytes w w₁ done.0 (first-none _ looked) s in
      let kept : w₁ ≡ w' = ground arith in
      let answer : done.0 ≡ r = ground arith in
      record {
        row = a.row;
        found =
            ap
              (λ (v : World St).
                first (select (of_client session_id p h.client_chunk_id) v.db.chunks))
              (sym kept)
            ∙ a.found;
        same_seq = ap (λ (x : UploadResponse). x.seq) (sym answer) ∙ a.same_seq;
        same_key = ap (λ (x : UploadResponse). x.s3_key) (sym answer) ∙ a.same_key;
      }

  emit-reads :
      (d : Option ChunkUploaded) (w w' : World St) → emit state lib d w ≡ (ok tt, w') → w'.db ≡ w.db
  unfolding emit
  emit-reads none w w' e = ground arith
  emit-reads (some d) w w' e = ground arith

  -- The answer that a request gets when its client id is known: nothing is written or sent.
  known :
      (service : Text) (session_id : Uuid) (raw : Text) (headers : HeaderMap) (body : List ℕ)
      (p : PseudoId) (h : ChunkHeaders) (w : World St) (r : UploadResponse)
      → Ids.new_or_mixed raw ≡ ok p
      → parse_chunk_headers lib headers ≡ ok h
      → Answered session_id p h.client_chunk_id r w.db.chunks
      → upload state lib service session_id raw headers body w
        ≡ (ok (record r { deduplicated = true }), w)
  unfolding upload upload_tx emit Chunks.lookup_by_client_id
  known service session_id raw headers body p h w r valid parsed a =
      rw (valid, parsed, a.found, a.same_seq, a.same_key) refl

  -- After an upload that succeeded, an upload to the same stream with the same headers, whatever its
  -- body and whoever sends it, answers with the same number and key, marked as deduplicated, and
  -- leaves the database, the store, the events, the metrics and the rest of the world as they were.
  pub upload-upload :
      (service : Text) (session_id : Uuid) (raw : Text) (headers : HeaderMap) (body : List ℕ)
      (w w' : World St) (r : UploadResponse)
      → upload state lib service session_id raw headers body w ≡ (ok r, w')
      → (service' : Text) (body' : List ℕ)
      → upload state lib service' session_id raw headers body' w'
        ≡ (ok (record r { deduplicated = true }), w')
  unfolding upload Chunks.lookup_by_client_id
  upload-upload service session_id raw headers body w w' r e service' body' =
      let (p, w₁, valid, e₁) = >>=-ok (checked (Ids.new_or_mixed raw) w) _ r w' e in
      let (valid', same₁) = checked-ok (Ids.new_or_mixed raw) w p w₁ valid in
      let (h, w₂, parsed, e₂) = >>=-ok (lift (parse_chunk_headers lib headers) w₁) _ r w' e₁ in
      let (done, w₃, ran, e₃) =
        >>=-ok (transaction (inner p h) w₂)
          (λ (x : UploadResponse × Option ChunkUploaded). emit state lib x.1 >> pure x.0) r w' e₂ in
      let (x, w₄, sent, e₄) =
        >>=-ok (emit state lib done.1 w₃) (λ (_ : Unit {0}). pure done.0) r w' e₃ in
      let a =
        upload_tx-Answered service session_id p h body _ w₂ w₃ done.0 done.1 refl
          (transaction-ok w₂.db (inner p h w₂) done w₃ ran) in
      let last : w' ≡ w₄ = ground arith in
      let sent_to : w'.db ≡ w₃.db =
        ap (λ (v : World St). v.db) last ∙ emit-reads done.1 w₃ w₄ sent in
      let answer : done.0 ≡ r = ground arith in
      known service' session_id raw headers body' p h w' r valid' (ground arith) (record {
        row = a.row;
        found =
            ap (λ (d : Db). first (select (of_client session_id p h.client_chunk_id) d.chunks))
              sent_to
            ∙ a.found;
        same_seq = ap (λ (y : UploadResponse). y.seq) (sym answer) ∙ a.same_seq;
        same_key = ap (λ (y : UploadResponse). y.s3_key) (sym answer) ∙ a.same_key;
      })
    where
      inner : PseudoId → ChunkHeaders → Handler St (UploadResponse × Option ChunkUploaded)
      inner p h =
          exec (Chunks.lookup_by_client_id session_id p h.client_chunk_id)
          >>= upload_tx state lib service session_id p h body
