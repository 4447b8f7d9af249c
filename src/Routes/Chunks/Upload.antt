-- ===== src/Routes/Chunks/Upload.antt =====
-- src/routes/chunks.rs: what an upload leaves behind, and what a retry of it does.
use ovp_data_api.Base.{
  ℕ, ◌+◌, ◌≤◌, Text, Uuid, DateTime, Bool, true, false, none, some, List, [], ◌∷◌, ◌++◌, length,
  Result, ok, ◌≡◌, refl, sym, ap, ◌∙◌, arith, update-append, update_none, update_one,
}
use ovp_data_api.Error.{AppError}
use ovp_data_api.Ids.{PseudoId}
use ovp_data_api.Ids.Shape.{pseudo_eq_iff}
use ovp_data_api.Events.{ChunkUploaded}
use ovp_data_api.App.Inversion.{>>=-ok, exec-ok, get-reads, audit-adds}
use ovp_data_api.App.{AppState, World, exec, audit}
use ovp_data_api.Db.{Db, ChunkRow, Session}
use ovp_data_api.Db.Sessions
use ovp_data_api.Db.Chunks
use ovp_data_api.Db.Chunks.{NewChunk, chunk_row, of_seq, of_client, of_stream, next_seq}
use ovp_data_api.Db.Chunks.Seq.{next_seq_free}
use ovp_data_api.Routes.Chunks.Headers.{ChunkHeaders, RequestLib}
use ovp_data_api.Routes.Chunks.{
  UploadResponse, max_chunk_bytes, chunk_key, new_chunk, put_object, record_chunk, store_row,
  store_chunk, read_body,
}

-- Patching the key of the row that was just inserted changes that row alone.
set_s3_key_lem :
    (n : NewChunk) (key : Text) (now : DateTime) (db : Db)
    → let seq = next_seq n.session_id n.pseudo_id db.chunks in
      Chunks.set_s3_key key n.session_id n.pseudo_id seq now
        (record db { chunks = db.chunks ++ chunk_row n seq now ∷ [] })
      ≡ ok (
        tt,
        record db { chunks = db.chunks ++ record (chunk_row n seq now) { s3_key = key } ∷ [] },
      )
unfolding Chunks.set_s3_key
set_s3_key_lem n key now db =
    let seq : ℕ = next_seq n.session_id n.pseudo_id db.chunks in
    let p : ChunkRow → Bool = of_seq n.session_id n.pseudo_id seq in
    let f : ChunkRow → ChunkRow = λ c. record c { s3_key = key } in
    let same : p (chunk_row n seq now) ≡ true =
      ground (arith, pseudo_eq_iff n.pseudo_id n.pseudo_id) in
    rw
      (
        update-append p f db.chunks (chunk_row n seq now ∷ []),
        update_none p f db.chunks (next_seq_free n.session_id n.pseudo_id db.chunks),
        update_one p f (chunk_row n seq now) same,
      )
      refl

-- The row after its number, its key and the clock have come back from the statements.
abbrev with_row : NewChunk → Text → DateTime → Db → Db
with_row n key now db = record db {
  chunks =
      db.chunks
      ++ record (chunk_row n (next_seq n.session_id n.pseudo_id db.chunks) now) { s3_key = key }
        ∷ [];
}

keyed_row :
    (n : NewChunk) (key : Text) (now later : DateTime) (db grown : Db) (seq : ℕ)
    → seq ≡ next_seq n.session_id n.pseudo_id db.chunks
    → later ≡ now
    → grown ≡ record db {
      chunks = db.chunks ++ chunk_row n (next_seq n.session_id n.pseudo_id db.chunks) now ∷ [];
    }
    → Chunks.set_s3_key key n.session_id n.pseudo_id seq later grown
      ≡ ok (tt, with_row n key now db)
keyed_row n key now later db grown seq number same left =
    rw (number, same, left) (set_s3_key_lem n key now db)

same_db : (a b : Db) → Path (Result AppError (Unit {0} × Db)) (ok (tt, a)) (ok (tt, b)) → a ≡ b
same_db a b h = ground arith

module _ {St : Type 0} (state : AppState St) (lib : RequestLib) where
  open state use {store}

  -- What a stored chunk leaves: one row more, numbered next in its stream, under the key of its
  -- object, which the store has taken.
  pub record Stored (session_id : Uuid) (p : PseudoId) (h : ChunkHeaders) (bytes : List ℕ)
      (w : World St) (r : UploadResponse) (w' : World St) : Type 0 where
    pub row : ChunkRow
    pub appended : w'.db.chunks ≡ w.db.chunks ++ row ∷ []
    pub numbered : row.seq ≡ next_seq session_id p w.db.chunks
    pub of_session : row.session_id ≡ session_id
    pub of_pseudo : row.pseudo_id ≡ p
    pub of_client_id : row.client_chunk_id ≡ h.client_chunk_id
    pub answered : (r.seq ≡ row.seq) × (r.s3_key ≡ row.s3_key)
    pub put : store.put row.s3_key bytes w.objects ≡ (ok tt, w'.objects)

  -- What the steps after the put do.
  record_chunk-ok :
      (service : Text) (p : PseudoId) (session : Session) (session_id : Uuid) (bytes : List ℕ)
      (seq : ℕ) (key : Text) (w w' : World St) (r : UploadResponse) (ev : ChunkUploaded)
      → record_chunk state lib service p session session_id bytes seq key w ≡ (ok (r, ev), w')
      → (db : Db) × (Chunks.set_s3_key key session_id p seq w.now w.db ≡ ok (tt, db))
        × (w'.db.chunks ≡ db.chunks)
        × (w'.objects ≡ w.objects)
        × (r ≡ record { seq = seq; s3_key = key; deduplicated = false })
  unfolding record_chunk
  record_chunk-ok service p session session_id bytes seq key w w' r ev e =
      let (_, w₁, keyed, e₁) =
        >>=-ok (exec (Chunks.set_s3_key key session_id p seq) _) _ (r, ev) w' e in
      let (db, set, left) =
        exec-ok (Chunks.set_s3_key key session_id p seq w.now w.db) _ tt w₁ keyed in
      let (_, w₂, logged, e₂) = >>=-ok (audit _ w₁) _ (r, ev) w' e₁ in
      let added = audit-adds _ w₁ w₂ logged in
      let last : w₂ ≡ w' =
        ap (λ (x : Result AppError (UploadResponse × ChunkUploaded) × World St). x.1) e₂ in
      let all = sym last ∙ added in
      (
        db,
        set,
        ap (λ (x : World St). x.db.chunks) all ∙ ap (λ (x : World St). x.db.chunks) left,
        ap (λ (x : World St). x.objects) all ∙ ap (λ (x : World St). x.objects) left,
        ground arith,
      )

  insert-ok :
      (n : NewChunk) (now : DateTime) (db db' : Db) (c : ChunkRow)
      → Chunks.insert n now db ≡ ok (c, db')
      → let row = chunk_row n (next_seq n.session_id n.pseudo_id db.chunks) now in
        (c ≡ row) × (db' ≡ record db { chunks = db.chunks ++ row ∷ [] })
  unfolding Chunks.insert
  insert-ok n now db db' c h = (ground arith, ground arith)

  put_object-ok :
      (key : Text) (bytes : List ℕ) (w w' : World St)
      → put_object state lib key bytes w ≡ (ok tt, w')
      → (w'.db ≡ w.db) × (w'.now ≡ w.now) × (store.put key bytes w.objects ≡ (ok tt, w'.objects))
  put_object-ok key bytes w w' h = (ground arith, ground arith, ground arith)

  store_row-Stored :
      (service : Text) (session_id : Uuid) (p : PseudoId) (h : ChunkHeaders) (session : Session)
      (bytes : List ℕ) (w w' : World St) (r : UploadResponse) (ev : ChunkUploaded)
      → store_row state lib service p h session session_id bytes w ≡ (ok (r, ev), w')
      → Stored session_id p h bytes w r w'
  unfolding store_row
  store_row-Stored service session_id p h session bytes w w' r ev e =
      let n = new_chunk state lib session_id p h (length bytes) in
      let (c, w₁, inserted, e₁) = >>=-ok (exec (Chunks.insert n) w) _ (r, ev) w' e in
      let (db₁, ins, left₁) = exec-ok (Chunks.insert n w.now w.db) w c w₁ inserted in
      let (same, grown) = insert-ok n w.now w.db db₁ c ins in
      let key = chunk_key session.s3_prefix p c.seq in
      let (_, w₂, taken, e₂) = >>=-ok (put_object state lib key bytes w₁) _ (r, ev) w' e₁ in
      let (db₂, set, chunks, objects, answer) =
        record_chunk-ok service p session session_id bytes c.seq key w₂ w' r ev e₂ in
      let (kept, same_time, put) = put_object-ok key bytes w₁ w₂ taken in
      let number : c.seq ≡ next_seq session_id p w.db.chunks = ap (λ (x : ChunkRow). x.seq) same in
      let now : w₂.now ≡ w.now = same_time ∙ ap (λ (x : World St). x.now) left₁ in
      let left = kept ∙ (ap (λ (x : World St). x.db) left₁ ∙ grown) in
      let rows : db₂ ≡ with_row n key w.now w.db =
        same_db db₂ (with_row n key w.now w.db)
          (sym set ∙ keyed_row n key w.now w₂.now w.db w₂.db c.seq number now left) in
      record {
        row = record (chunk_row n (next_seq session_id p w.db.chunks) w.now) { s3_key = key };
        appended = chunks ∙ ap (λ (d : Db). d.chunks) rows;
        numbered = refl;
        of_session = refl;
        of_pseudo = refl;
        of_client_id = refl;
        answered = (
          ap (λ (x : UploadResponse). x.seq) answer ∙ number,
          ap (λ (x : UploadResponse). x.s3_key) answer,
        );
        put =
            ap (λ (x : World St). store.put key bytes x.objects) (sym left₁)
            ∙ (put ∙ ap (λ (o : St). (ok tt, o)) (sym objects));
      }

  read_body-ok :
      (body bytes : List ℕ) (w w' : World St)
      → read_body state lib body w ≡ (ok bytes, w')
      → (lib.to_bytes body (max_chunk_bytes + 1) ≡ some bytes)
        × (length bytes ≤ max_chunk_bytes)
        × (w' ≡ w)
  unfolding read_body
  read_body-ok body bytes w w' = elim (lib.to_bytes body (max_chunk_bytes + 1)) [
    | none ↦ λ e. ground arith
    | some got ↦ λ e. (ground arith, ground arith, ground arith)
  ]

  -- An upload that is stored took the body whole, of at most MAX_CHUNK_BYTES bytes, and left one row
  -- more: numbered next in its stream, under the request's client id, with the key that the answer
  -- names, under which the store took the bytes.
  pub store_chunk-Stored :
      (service : Text) (session_id : Uuid) (p : PseudoId) (h : ChunkHeaders) (body : List ℕ)
      (w w' : World St) (r : UploadResponse) (ev : ChunkUploaded)
      → store_chunk state lib service session_id p h body w ≡ (ok (r, ev), w')
      → (bytes : List ℕ) × (lib.to_bytes body (max_chunk_bytes + 1) ≡ some bytes)
        × (length bytes ≤ max_chunk_bytes)
        × Stored session_id p h bytes w r w'
  unfolding store_chunk
  store_chunk-Stored service session_id p h body w w' r ev e =
      let (session, w₁, got, rest) = >>=-ok (exec (Sessions.get session_id) w) _ (r, ev) w' e in
      let same : w₁ ≡ w = (get-reads session_id session w w₁ got).1 in
      let (bytes, w₂, read, stores) = >>=-ok (read_body state lib body w₁) _ (r, ev) w' rest in
      let (whole, fits, kept) = read_body-ok body bytes w₁ w₂ read in
      (
        bytes,
        whole,
        fits,
        store_row-Stored service session_id p h session bytes w w' r ev (
            sym (ap (store_row state lib service p h session session_id bytes) (kept ∙ same))
            ∙ stores),
      )
