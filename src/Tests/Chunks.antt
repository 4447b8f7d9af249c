-- ===== src/Tests/Chunks.antt =====
-- Runs of the handlers of chunks.
use ovp_data_api.Base.{
  ◌≡◌, refl, ◌≤◌, ◌<◌, ◌+◌, Bool, true, false, ℕ, pos, All, any, text, Text, Option, none, some,
  List, [], ◌∷◌, ◌++◌, length, Result, ok, err, ◌==◌, select, update, first,
}
use ovp_data_api.Storage.Mem.{MemStore}
use ovp_data_api.State.{recording}
use ovp_data_api.Events.{ChunkUploaded}
use ovp_data_api.App.{World}
use ovp_data_api.Db.{Db, ChunkRow}
use ovp_data_api.Db.Sessions
use ovp_data_api.Db.Chunks
use ovp_data_api.Db.Chunks.{NewChunk, chunk_row, of_stream, of_client, i32_max}
use ovp_data_api.Db.Chunks.Seq.{insert_lem}
use ovp_data_api.Routes.Chunks.Headers.{ChunkHeaders}
use ovp_data_api.Routes.Chunks.{UploadResponse, upload, store_chunk, max_chunk_bytes, chunk_key}
use ovp_data_api.Routes.Chunks.Upload.{Stored, store_chunk-Stored}
use ovp_data_api.Routes.Chunks.Retry.{upload-upload}
use ovp_data_api.Base.{sym, ap, ◌∙◌, text_eq_refl}
use ovp_data_api.Error.{AppError}
use ovp_data_api.Storage.Mem
use ovp_data_api.Storage.Mem.{mem_store, get-put}
use ovp_data_api.Routes.Chunks.{download}
use ovp_data_api.Routes.Chunks.Reread.{ReadsBack, upload-download}
use ovp_data_api.Tests.World.{state, lib, world, headers, raw_pseudo, pseudo}

abbrev body : List ℕ
body = 1 ∷ 2 ∷ []

abbrev response : UploadResponse
response = record { seq = 1; s3_key = chunk_key (text "s") pseudo 1; deduplicated = false }

abbrev after_upload : World MemStore
after_upload = (upload state lib (text "svc") 7 raw_pseudo headers body (world recording)).1

uploads :
    upload state lib (text "svc") 7 raw_pseudo headers body (world recording)
    ≡ (ok response, after_upload)
unfolding upload ovp_data_api.Ids.new_or_mixed ovp_data_api.Base.text_eq
    ovp_data_api.Ids.is_valid_pseudo_id ovp_data_api.Ids.is_lower_hex
    ovp_data_api.Routes.Chunks.Headers.parse_chunk_headers Chunks.lookup_by_client_id first select
    ovp_data_api.Ids.pseudo_eq Sessions.get Chunks.insert ovp_data_api.Db.session_exists
    ovp_data_api.Ids.is_mixed ovp_data_api.Storage.Mem.mem_store Chunks.set_s3_key
    ovp_data_api.Db.AuditLog.append ovp_data_api.Db.AuditLog.admits ovp_data_api.Base.decimal
    ovp_data_api.Base.holds_nul
uploads = refl

upload-upload_example :
    upload state lib (text "other") 7 raw_pseudo headers [] after_upload
    ≡ (ok (record response { deduplicated = true }), after_upload)
upload-upload_example =
    upload-upload state lib (text "svc") 7 raw_pseudo headers body (world recording) after_upload
      response uploads (text "other") []

abbrev chunk_headers : ChunkHeaders
chunk_headers = record { capture_started_at = 5; duration_ms = 100; client_chunk_id = text "c1" }

abbrev after_store : World MemStore
after_store = (store_chunk state lib (text "svc") 7 pseudo chunk_headers body (world recording)).1

abbrev announced : ChunkUploaded
announced = record { session_id = 7; guild_id = pos 3; pseudo_id = pseudo; seq = 1; size_bytes = 2 }

stores :
    store_chunk state lib (text "svc") 7 pseudo chunk_headers body (world recording)
    ≡ (ok (response, announced), after_store)
unfolding store_chunk Sessions.get select Chunks.insert ovp_data_api.Db.session_exists
    ovp_data_api.Ids.is_mixed ovp_data_api.Base.text_eq ovp_data_api.Ids.is_valid_pseudo_id
    ovp_data_api.Ids.is_lower_hex ovp_data_api.Ids.pseudo_eq ovp_data_api.Storage.Mem.mem_store
    Chunks.set_s3_key ovp_data_api.Db.AuditLog.append ovp_data_api.Db.AuditLog.admits
    ovp_data_api.Base.decimal ovp_data_api.Base.holds_nul
stores = refl

store_chunk-Stored_example :
    (bytes : List ℕ) × (lib.to_bytes body (max_chunk_bytes + 1) ≡ some bytes)
    × (length bytes ≤ max_chunk_bytes)
    × Stored state lib 7 pseudo chunk_headers bytes (world recording) response after_store
store_chunk-Stored_example =
    store_chunk-Stored state lib (text "svc") 7 pseudo chunk_headers body (world recording)
      after_store response announced stores

abbrev new_chunk : NewChunk
new_chunk = record {
  session_id = 7;
  pseudo_id = pseudo;
  s3_key = [];
  size_bytes = 2;
  capture_started_at = 5;
  duration_ms = 100;
  client_chunk_id = text "c1";
}

abbrev after_insert : Db
after_insert = record (world recording).db {
  chunks = (world recording).db.chunks ++ chunk_row new_chunk 1 9 ∷ [];
}

inserted :
    Chunks.insert new_chunk 9 (world recording).db ≡ ok (chunk_row new_chunk 1 9, after_insert)
unfolding Chunks.insert ovp_data_api.Db.session_exists ovp_data_api.Ids.is_mixed
    ovp_data_api.Base.text_eq ovp_data_api.Ids.is_valid_pseudo_id ovp_data_api.Ids.is_lower_hex
    ovp_data_api.Ids.pseudo_eq
inserted = refl

insert_lem_example :
    (after_insert.chunks ≡ (world recording).db.chunks ++ chunk_row new_chunk 1 9 ∷ [])
    × All (λ c. of_stream 7 pseudo c ≡ true → c.seq < 1) (world recording).db.chunks
    × (1 ≤ i32_max)
    × (any (of_client 7 pseudo (text "c1")) (world recording).db.chunks ≡ false)
insert_lem_example =
    insert_lem new_chunk 9 (world recording).db after_insert (chunk_row new_chunk 1 9) inserted

mem_store-ReadsBack : ReadsBack mem_store
unfolding mem_store
mem_store-ReadsBack k b s s' e =
    ap (λ (x : Result AppError (Unit {0}) × MemStore). Mem.get k x.1) (sym e)
    ∙ (get-put k k b s ∙ rw (text_eq_refl k) refl)

upload-download_example :
    (bytes : List ℕ) × (lib.to_bytes body (max_chunk_bytes + 1) ≡ some bytes)
    × ((download state lib 7 raw_pseudo 1 after_upload).0 ≡ ok bytes)
upload-download_example =
    upload-download state lib (text "svc") 7 raw_pseudo headers body (world recording) after_upload
      response mem_store-ReadsBack refl uploads
