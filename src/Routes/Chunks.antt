-- ===== src/Routes/Chunks.antt =====
-- src/routes/chunks.rs: upload and download of PCM chunks.
pub mod Headers
pub mod Upload
pub mod Retry
pub mod Reread
use ovp_data_api.Base.{
  ℕ, ℤ, pos, ◌+◌, ◌*◌, ◌++◌, Text, text, Uuid, DateTime, Bool, true, false, ltb, Option, none, some,
  List, [], ◌∷◌, length, padded, decimal, Result, ok, err, Json, num, obj, end, member,
  if◌then◌else◌,
}
use ovp_data_api.Error.{AppError, payload_too_large, missing_header, bad_request}
use ovp_data_api.Ids.{PseudoId}
use ovp_data_api.Ids
use ovp_data_api.Events.{Event, ChunkUploaded, chunk_uploaded}
use ovp_data_api.App.{
  AppState, Handler, pure, fail, lift, checked, exec, transaction, utc_now, elapsed, send,
  inc_counter, observe_histogram, audit, on_store, read_store, ◌>>=◌, ◌>>◌,
}
use ovp_data_api.Db.{Db, Session, ChunkRow, Stmt}
use ovp_data_api.Db.AuditLog.{Entry}
use ovp_data_api.Db.Sessions
use ovp_data_api.Db.Chunks
use ovp_data_api.Routes.Chunks.Headers.{ChunkHeaders, HeaderMap, RequestLib, parse_chunk_headers}

abbrev pub max_chunk_bytes : ℕ
max_chunk_bytes = 3 * 1024 * 1024

pub record UploadResponse : Type 0 where
  pub seq : ℕ
  pub s3_key : Text
  pub deduplicated : Bool

-- format!("{}/audio/{}/chunk_{:06}.pcm", session.s3_prefix, pseudo_id, row.seq)
unfoldable pub chunk_key : Text → PseudoId → ℕ → Text
chunk_key s3_prefix pseudo_id seq =
    s3_prefix
    ++ (text "/audio/" ++ (pseudo_id.as_str ++ (text "/chunk_" ++ (padded seq ++ text ".pcm"))))

module _ {St : Type 0} (state : AppState St) (lib : RequestLib) where
  open state use {store, uuid_to_string}

  unfoldable pub read_body : List ℕ → Handler St (List ℕ)
  read_body body = elim (lib.to_bytes body (max_chunk_bytes + 1)) [
    | none ↦ fail bad_request
    | some bytes ↦ if ltb max_chunk_bytes (length bytes) then fail payload_too_large else pure bytes
  ]

  abbrev pub chunk_entry : Text → Uuid → PseudoId → ℕ → ℕ → Entry
  chunk_entry service session_id pseudo_id seq size_bytes = record {
    actor_service = service;
    actor_pseudo = none;
    session_id = some session_id;
    resource_type = text "chunk";
    resource_id =
        uuid_to_string session_id ++ (text "/" ++ (pseudo_id.as_str ++ (text "/" ++ decimal seq)));
    action = text "uploaded";
    detail = some (obj (member (text "size_bytes") (num (pos size_bytes)) end));
  }

  abbrev pub put_object : Text → List ℕ → Handler St (Unit {0})
  put_object key body = on_store (store.put key body)

  abbrev pub new_chunk : Uuid → PseudoId → ChunkHeaders → ℕ → Chunks.NewChunk
  new_chunk session_id pseudo_id h size_bytes = record {
    session_id = session_id;
    pseudo_id = pseudo_id;
    s3_key = [];
    size_bytes = size_bytes;
    capture_started_at = h.capture_started_at;
    duration_ms = h.duration_ms;
    client_chunk_id = h.client_chunk_id;
  }

  -- From the stored object on: the response and the event to send.
  unfoldable pub record_chunk :
      Text
      → PseudoId
      → Session
      → Uuid
      → List ℕ
      → ℕ
      → Text
      → Handler St (UploadResponse × ChunkUploaded)
  record_chunk service pseudo_id session session_id bytes seq key = do
    nanos ← elapsed
    observe_histogram (text "chronicle_s3_put_seconds") nanos
    inc_counter (text "chronicle_chunks_uploaded_total") 1
    exec (Chunks.set_s3_key key session_id pseudo_id seq)
    audit (chunk_entry service session_id pseudo_id seq (length bytes))
    pure (
      record { seq = seq; s3_key = key; deduplicated = false },
      record {
        session_id = session_id;
        guild_id = session.guild_id;
        pseudo_id = pseudo_id;
        seq = seq;
        size_bytes = length bytes;
      },
    )

  -- From the reservation of the row on.
  unfoldable pub store_row :
      Text
      → PseudoId
      → ChunkHeaders
      → Session
      → Uuid
      → List ℕ
      → Handler St (UploadResponse × ChunkUploaded)
  unfolding record_chunk
  store_row service pseudo_id h session session_id bytes = do
    row ← exec (Chunks.insert (new_chunk session_id pseudo_id h (length bytes)))
    let key = chunk_key session.s3_prefix pseudo_id row.seq
    put_object key bytes
    record_chunk service pseudo_id session session_id bytes row.seq key

  -- What an upload that is no retry does before the commit.
  unfoldable pub store_chunk :
      Text → Uuid → PseudoId → ChunkHeaders → List ℕ → Handler St (UploadResponse × ChunkUploaded)
  unfolding read_body store_row
  store_chunk service session_id pseudo_id h body = do
    session ← exec (Sessions.get session_id)
    bytes ← read_body body
    store_row service pseudo_id h session session_id bytes

  -- A retry answers from the row that is there; its transaction is rolled back without a write.
  unfoldable pub upload_tx :
      Text
      → Uuid
      → PseudoId
      → ChunkHeaders
      → List ℕ
      → Option ChunkRow
      → Handler St (UploadResponse × Option ChunkUploaded)
  unfolding store_chunk
  upload_tx service session_id pseudo_id h body (some existing) =
      pure (record { seq = existing.seq; s3_key = existing.s3_key; deduplicated = true }, none)
  upload_tx service session_id pseudo_id h body none = do
    done ← store_chunk service session_id pseudo_id h body
    pure (done.0, some done.1)

  unfoldable pub emit : Option ChunkUploaded → Handler St (Unit {0})
  emit none = pure tt
  emit (some d) = do now ← utc_now; send (chunk_uploaded now d)

  unfoldable pub upload : Text → Uuid → Text → HeaderMap → List ℕ → Handler St UploadResponse
  unfolding upload_tx emit
  upload service session_id pseudo_raw headers body = do
    pseudo_id ← checked (Ids.new_or_mixed pseudo_raw)
    h ← lift (parse_chunk_headers lib headers)
    done ← transaction (do
      existing ← exec (Chunks.lookup_by_client_id session_id pseudo_id h.client_chunk_id)
      upload_tx service session_id pseudo_id h body existing)
    emit done.1
    pure done.0

  unfoldable pub list : Uuid → Text → Handler St (List ChunkRow)
  list session_id pseudo_raw = do
    pseudo_id ← checked (Ids.new_or_mixed pseudo_raw)
    exec (Chunks.list session_id pseudo_id)

  unfoldable pub download : Uuid → Text → ℕ → Handler St (List ℕ)
  download session_id pseudo_raw seq = do
    pseudo_id ← checked (Ids.new_or_mixed pseudo_raw)
    row ← exec (Chunks.get session_id pseudo_id seq)
    bytes ← read_store (store.get row.s3_key)
    nanos ← elapsed
    observe_histogram (text "chronicle_s3_get_seconds") nanos
    pure bytes
