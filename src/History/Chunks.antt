-- ===== src/History/Chunks.antt =====
-- src/routes/chunks.rs and src/routes/metadata.rs: the handlers keep what the statements keep.
use ovp_data_api.Base.{
  ℕ, Text, Uuid, List, Option, none, some, ◌+◌, Bool-cases, Option-cases, inl, inr, refl, ltb,
  length, Result, Json,
}
use ovp_data_api.Error.{AppError}
use ovp_data_api.Ids.{PseudoId, ETag}
use ovp_data_api.Ids
use ovp_data_api.Events.{ChunkUploaded}
use ovp_data_api.App.{AppState, World, on_store}
use ovp_data_api.Db.{Db, Session, ChunkRow, MetadataBlob}
use ovp_data_api.Db.Chunks
use ovp_data_api.Db.Metadata
use ovp_data_api.Db.Metadata.{current, require_etag, merge_shallow}
use ovp_data_api.History.Evolve.{
  Evolution, Steps, Moves, Later, given, runs, within, checks, after, next, reading-Moved,
}
use ovp_data_api.History.Laws.{Laws}
use ovp_data_api.History.Sessions.{get-Steps}
use ovp_data_api.Routes.Chunks as Handlers
use ovp_data_api.Routes.Chunks.{max_chunk_bytes, put_object, chunk_key}
use ovp_data_api.Routes.Chunks.Headers.{ChunkHeaders, HeaderMap, RequestLib, parse_chunk_headers}
use ovp_data_api.Routes.Metadata as Blobs

module _ {E : Evolution} {actor : Text} (laws : Laws E actor) where
  lookup-Steps : (id : Uuid) (p : PseudoId) (c : Text) → Steps E (Chunks.lookup_by_client_id id p c)
  unfolding Chunks.lookup_by_client_id
  lookup-Steps id p c = record { step = λ now db. E.stays db }

  list-Steps : (id : Uuid) (p : PseudoId) → Steps E (Chunks.list id p)
  unfolding Chunks.list
  list-Steps id p = record { step = λ now db. E.stays db }

  get_chunk-Steps : (id : Uuid) (p : PseudoId) (seq : ℕ) → Steps E (Chunks.get id p seq)
  unfolding Chunks.get
  get_chunk-Steps id p seq = record { step = λ now db. reading-Moved E db _ }

  get_blob-Steps : (id : Uuid) → Steps E (Metadata.get id)
  unfolding Metadata.get
  get_blob-Steps id = record { step = λ now db. reading-Moved E db _ }

  get_opt-Steps : (id : Uuid) → Steps E (Metadata.get_opt id)
  unfolding Metadata.get_opt
  get_opt-Steps id = record { step = λ now db. E.stays db }

  module _ {St : Type 0} (state : AppState St) (lib : RequestLib) where
    read_body-Moves : (body : List ℕ) → Moves E (Handlers.read_body state lib body)
    unfolding Handlers.read_body
    read_body-Moves body b w h = elim (Option-cases (lib.to_bytes body (max_chunk_bytes + 1))) [
      | inl e ↦ rw (Handlers.read_body, e) (record { later = h })
      | inr (bytes, e) ↦ elim (Bool-cases (ltb max_chunk_bytes (length bytes))) [
        | inl large ↦ rw (Handlers.read_body, e, large) (record { later = h })
        | inr small ↦ rw (Handlers.read_body, e, small) (record { later = h })
      ]
    ]

    puts :
        {b : Db} (call : St → Result AppError (Unit {0}) × St) (w : World St)
        → E.rel b w.db
        → Later E b (on_store call w)
    puts call w h = record { later = h }

    record_chunk-Moves :
        (p : PseudoId) (session : Session) (id : Uuid) (bytes : List ℕ) (seq : ℕ) (key : Text)
        → Moves E (Handlers.record_chunk state lib actor p session id bytes seq key)
    unfolding Handlers.record_chunk
    record_chunk-Moves p session id bytes seq key b w h =
        next (runs (laws.chunk_key key id p seq) _ h)
          λ w₁ h₁. next (runs (laws.audit_append _ _ refl) _ h₁) λ w₂ h₂. record { later = h₂ }

    store_row-Moves :
        (p : PseudoId) (c : ChunkHeaders) (session : Session) (id : Uuid) (bytes : List ℕ)
        → Moves E (Handlers.store_row state lib actor p c session id bytes)
    unfolding Handlers.store_row
    store_row-Moves p c session id bytes b w h = after (runs (laws.chunk_insert _) _ h) λ row w₁ h₁.
        let key = chunk_key session.s3_prefix p row.seq in
        next {k = Handlers.record_chunk state lib actor p session id bytes row.seq key}
          (puts (state.store.put key bytes) w₁ h₁)
          (record_chunk-Moves p session id bytes row.seq key b)

    store_chunk-Moves :
        (id : Uuid) (p : PseudoId) (c : ChunkHeaders) (body : List ℕ)
        → Moves E (Handlers.store_chunk state lib actor id p c body)
    unfolding Handlers.store_chunk
    store_chunk-Moves id p c body b w h =
        after (runs (get-Steps state laws id) _ h) λ session w₁ h₁.
          after (read_body-Moves body b w₁ h₁)
            λ bytes w₂ h₂. store_row-Moves p c session id bytes b w₂ h₂

    upload_tx-Moves :
        (id : Uuid) (p : PseudoId) (c : ChunkHeaders) (body : List ℕ) (existing : Option ChunkRow)
        → Moves E (Handlers.upload_tx state lib actor id p c body existing)
    unfolding Handlers.upload_tx
    upload_tx-Moves id p c body (some existing) b w h = record { later = h }
    upload_tx-Moves id p c body none b w h =
        after (store_chunk-Moves id p c body b w h) λ done w₁ h₁. record { later = h₁ }

    emit-Moves : (d : Option ChunkUploaded) → Moves E (Handlers.emit state lib d)
    unfolding Handlers.emit
    emit-Moves none b w h = record { later = h }
    emit-Moves (some d) b w h = record { later = h }

    pub upload-Moves :
        (id : Uuid) (pid : Text) (headers : HeaderMap) (body : List ℕ)
        → Moves E (Handlers.upload state lib actor id pid headers body)
    unfolding Handlers.upload
    upload-Moves id pid headers body b w h = after (checks (Ids.new_or_mixed pid) w h) λ p w₁ h₁.
        after (given (parse_chunk_headers lib headers) w₁ h₁) λ c w₂ h₂.
          after
            (within w₂ _ h₂ (
              after (runs (lookup-Steps id p c.client_chunk_id) w₂ h₂)
                λ existing w₃ h₃. upload_tx-Moves id p c body existing b w₃ h₃))
            λ done w₄ h₄. next (emit-Moves done.1 b w₄ h₄) λ w₅ h₅. record { later = h₅ }

    pub list-Moves : (id : Uuid) (pid : Text) → Moves E (Handlers.list state lib id pid)
    unfolding Handlers.list
    list-Moves id pid b w h =
        after (checks (Ids.new_or_mixed pid) w h) λ p w₁ h₁. runs (list-Steps id p) w₁ h₁

    pub download-Moves :
        (id : Uuid) (pid : Text) (seq : ℕ) → Moves E (Handlers.download state lib id pid seq)
    unfolding Handlers.download
    download-Moves id pid seq b w h = after (checks (Ids.new_or_mixed pid) w h) λ p w₁ h₁.
        after (runs (get_chunk-Steps id p seq) w₁ h₁) λ row w₂ h₂.
          after (given (state.store.get row.s3_key w₂.objects) w₂ h₂)
            λ bytes w₃ h₃. record { later = h₃ }

    pub fetch-Moves : (id : Uuid) → Moves E (Blobs.fetch state lib id)
    unfolding Blobs.fetch
    fetch-Moves id b w h = after (runs (get_blob-Steps id) _ h) λ row w₁ h₁. record { later = h₁ }

    pub replace-Moves : (id : Uuid) (j : Json) → Moves E (Blobs.replace state lib actor id j)
    unfolding Blobs.replace Metadata.replace
    replace-Moves id j b w h =
        after (runs (laws.metadata_upsert id j _) _ h)
          λ row w₁ h₁. next (runs (laws.audit_append _ _ refl) _ h₁) λ w₂ h₂. record { later = h₂ }

    current-Moves :
        (existing : Option MetadataBlob) (b : Db) (w : World St)
        → E.rel b w.db
        → Later E b (current existing w)
    current-Moves none b w h = record { later = h }
    current-Moves (some r) b w h = record { later = h }

    merge-Moves :
        (id : Uuid) (etag : Option ETag) (j : Json) (b : Db) (w : World St)
        → E.rel b w.db
        → Later E b (Metadata.shallow_merge id etag j w)
    unfolding Metadata.shallow_merge
    merge-Moves id etag j b w h = within w _ h (
        after (runs (get_opt-Steps id) w h) λ existing w₁ h₁.
          after (current-Moves existing b w₁ h₁) λ base w₂ h₂.
            next (given (require_etag etag base.1) w₂ h₂) λ w₃ h₃.
              after (given (merge_shallow base.0 j) w₃ h₃)
                λ merged w₄ h₄. runs (laws.metadata_upsert id merged _) _ h₄)

    pub shallow_patch-Moves :
        (id : Uuid) (headers : HeaderMap) (j : Json)
        → Moves E (Blobs.shallow_patch state lib actor id headers j)
    unfolding Blobs.shallow_patch
    shallow_patch-Moves id headers j b w h =
        after (merge-Moves id _ j b w h)
          λ row w₁ h₁. next (runs (laws.audit_append _ _ refl) _ h₁) λ w₂ h₂. record { later = h₂ }
