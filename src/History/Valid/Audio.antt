-- ===== src/History/Valid/Audio.antt =====
-- src/db/chunks.rs, mute_ranges.rs and uniform.rs: the statements on what belongs to a session keep
-- the constraints.
use ovp_data_api.Base.{
  ℕ, Uuid, Text, Bool, true, false, inl, inr, Bool-cases, List, [], ◌∷◌, ◌++◌, All-append,
  All-delete, All-update, any, Unique-append, Unique-delete, Unique-update, ◌≡◌, refl, arith, ok,
  err, Result, if◌then◌else◌, ◌==◌, delete, Option, none, some, int_lt,
}
use ovp_data_api.Error.{AppError}
use ovp_data_api.Ids.{PseudoId, ETag}
use ovp_data_api.Db.{Db, Session, ChunkRow, MuteRange, StoredRow, reading, session_exists}
use ovp_data_api.Db.Chunks
use ovp_data_api.Db.Chunks.Seq.{next_seq_unused}
use ovp_data_api.Db.MuteRanges
use ovp_data_api.Db.Uniform
use ovp_data_api.History.Evolve.{Steps, Moved}
use ovp_data_api.Db.Chunks.Listing.{same_number}
use ovp_data_api.History.Valid.{
  IsValid, Refers, same_chunk, same_range, same_row, same_client, IsStreamId, HasAuthor,
}
use ovp_data_api.History.Valid.Tables.{
  valid, chunks-IsValid, mute_ranges-IsValid, rows-IsValid, table-IsValid,
}

-- A statement behind a test, and one that gives what it reads.
pub guarded :
    {A : Type 0} (c : Bool) (x : A) (e : AppError) (a b : Db)
    → (c ≡ true → IsValid a → IsValid b)
    → Moved valid.rel a (if c then ok (x, b) else err e)
guarded true x e a b h = h refl
guarded false x e a b h = tt

pub reads :
    {A : Type 0} (a b : Db) (r : Result AppError A)
    → (IsValid a → IsValid b)
    → Moved valid.rel a (reading b r)
reads a b (ok x) h = h
reads a b (err x) h = tt

pub Refers-append :
    {A : Type 0} (f : A → Uuid) (ss : List Session) (xs : List A) (x : A)
    → any (λ s. s.id == f x) ss ≡ true
    → Refers f ss xs
    → Refers f ss (xs ++ x ∷ [])
Refers-append f ss xs x h k =
    All-append (λ r. any (λ s. s.id == f r) ss ≡ true) xs (x ∷ []) k (h, tt)

pub chunk_insert : (n : Chunks.NewChunk) → Steps valid (Chunks.insert n)
unfolding Chunks.insert session_exists
chunk_insert n = record {
  step = λ now db.
      let seq = Chunks.next_seq n.session_id n.pseudo_id db.chunks in
      let row = Chunks.chunk_row n seq now in
      guarded (Chunks.admits n seq db) row _ db _ λ h v.
        chunks-IsValid (db.chunks ++ row ∷ []) db
          (Unique-append same_number db.chunks row
            (next_seq_unused n.session_id n.pseudo_id db.chunks) v.chunk_numbers)
          (Unique-append same_chunk db.chunks row (ground arith) v.chunk_clients)
          (Refers-append (λ c. c.session_id) db.sessions db.chunks row (ground arith)
            v.chunk_sessions)
          (All-append IsStreamId db.chunks (row ∷ []) v.chunk_pseudonyms (ground arith, tt)) v;
}

pub chunk_key :
    (k : Text) (id : Uuid) (p : PseudoId) (seq : ℕ) → Steps valid (Chunks.set_s3_key k id p seq)
unfolding Chunks.set_s3_key
chunk_key k id p seq = record {
  step = λ now db v.
      let q = Chunks.of_seq id p seq in
      let f = λ (c : ChunkRow). record c { s3_key = k } in
      chunks-IsValid _ db
        (Unique-update same_number q f db.chunks (λ x y h. refl) (λ x y h. refl) v.chunk_numbers)
        (Unique-update same_chunk q f db.chunks (λ x y h. refl) (λ x y h. refl) v.chunk_clients)
        (All-update _ q f db.chunks (λ x h k. k) v.chunk_sessions)
        (All-update IsStreamId q f db.chunks (λ x h k. k) v.chunk_pseudonyms) v;
}

pub chunks_deleted : (p : ChunkRow → Bool) → Steps valid (Chunks.delete_chunks p)
chunks_deleted p = record {
  step = λ now db v.
      chunks-IsValid (delete p db.chunks) db (Unique-delete same_number p db.chunks v.chunk_numbers)
        (Unique-delete same_chunk p db.chunks v.chunk_clients)
        (All-delete _ p db.chunks v.chunk_sessions)
        (All-delete IsStreamId p db.chunks v.chunk_pseudonyms) v;
}

pub mute_create :
    (i id : Uuid) (p : PseudoId) (m : MuteRanges.CreateMuteRange)
    → Steps valid (MuteRanges.create i id p m)
unfolding MuteRanges.create session_exists
mute_create i id p m = record {
  step = λ now db. elim (Bool-cases (int_lt m.end_offset_ms m.start_offset_ms)) [
    | inl e ↦ rw e tt
    | inr e ↦ rw e (
        guarded (MuteRanges.admits i id p db) _ _ db _ λ h v.
          mute_ranges-IsValid _ db
            (Unique-append same_range db.mute_ranges _ (ground arith) v.mute_ids)
            (Refers-append (λ r. r.session_id) db.sessions db.mute_ranges _ (ground arith)
              v.mute_sessions)
            (All-append _ db.mute_ranges (_ ∷ []) v.mute_pseudonyms (ground arith, tt)) v)
  ];
}

without_ranges :
    (p : MuteRange → Bool) (db : Db)
    → IsValid db
    → IsValid (record db { mute_ranges = delete p db.mute_ranges })
without_ranges p db v =
    mute_ranges-IsValid (delete p db.mute_ranges) db
      (Unique-delete same_range p db.mute_ranges v.mute_ids)
      (All-delete _ p db.mute_ranges v.mute_sessions)
      (All-delete _ p db.mute_ranges v.mute_pseudonyms) v

pub mute_delete : (id : Uuid) (p : PseudoId) (i : Uuid) → Steps valid (MuteRanges.delete_one id p i)
unfolding MuteRanges.delete_one
mute_delete id p i = record { step = λ now db. reads db _ _ (without_ranges _ db) }

pub mutes_deleted : (p : MuteRange → Bool) → Steps valid (MuteRanges.delete_ranges p)
mutes_deleted p = record { step = λ now db. without_ranges p db }

pub row_insert : (t : Uniform.Table) (r : StoredRow) → Steps valid (Uniform.insert_stored t r)
unfolding Uniform.insert_stored session_exists
row_insert t r = record {
  step = λ now db. guarded (Uniform.admits t r db) _ _ db _ λ h v.
      let rows = Uniform.rows_of t db in
      let old = table-IsValid t db v in
      rows-IsValid t (rows ++ r ∷ []) db
        (record {
          ids = Unique-append same_row rows r (ground arith) old.ids;
          clients = Unique-append same_client rows r (ground arith) old.clients;
          refers = Refers-append (λ x. x.session_id) db.sessions rows r (ground arith) old.refers;
          authors = All-append HasAuthor rows (r ∷ []) old.authors (ground arith, tt);
        })
        v;
}

without_rows :
    (t : Uniform.Table) (p : StoredRow → Bool) (db : Db)
    → IsValid db
    → IsValid (Uniform.with_rows t (delete p (Uniform.rows_of t db)) db)
without_rows t p db v =
    let rows = Uniform.rows_of t db in
    let old = table-IsValid t db v in
    rows-IsValid t (delete p rows) db
      (record {
        ids = Unique-delete same_row p rows old.ids;
        clients = Unique-delete same_client p rows old.clients;
        refers = All-delete _ p rows old.refers;
        authors = All-delete HasAuthor p rows old.authors;
      })
      v

pub row_delete :
    (rt : Uniform.ResourceTable) (id : Uuid) → Steps valid (Uniform.delete_stored rt id)
unfolding Uniform.delete_stored
row_delete rt id = record { step = λ now db. reads db _ _ (without_rows rt.table _ db) }

pub row_session :
    (rt : Uniform.ResourceTable) (id : Uuid) → Steps valid (Uniform.delete_all_for_session rt id)
unfolding Uniform.delete_all_for_session
row_session rt id = record { step = λ now db. without_rows rt.table _ db }

pub row_stream :
    (id : Uuid) (p : PseudoId) → Steps valid (Uniform.delete_for_participant_segments id p)
unfolding Uniform.delete_for_participant_segments
row_stream id p = record {
  step = λ now db. without_rows Uniform.session_segments (Uniform.of_participant id p) db;
}

author_kept :
    (shape : Uniform.TextShape) (u : Uniform.UniformRow) (etag : ETag) (author : Option PseudoId)
    (now : ℕ) (r : StoredRow)
    → Uniform.author_ok (Uniform.raw author) ≡ true
    → HasAuthor r
    → HasAuthor (Uniform.written shape u etag author now r)
author_kept shape u etag none now r e k = k
author_kept shape u etag (some p) now r e k = e

pub row_update :
    (rt : Uniform.ResourceTable) (id : Uuid) (u : Uniform.UniformRow) (etag : ETag)
    (author : Option PseudoId)
    → Steps valid (Uniform.update_stored rt id u etag author)
unfolding Uniform.update_stored
row_update rt id u etag author = record {
  step = λ now db. elim (Bool-cases (Uniform.author_ok (Uniform.raw author))) [
    | inl e ↦ rw e (
        reads db _ _ λ v.
          let rows = Uniform.rows_of rt.table db in
          let q = Uniform.has_id id in
          let f = Uniform.written rt.shape u etag author now in
          let old = table-IsValid rt.table db v in
          rows-IsValid rt.table _ db
            (record {
              ids = Unique-update same_row q f rows (λ x y h. refl) (λ x y h. refl) old.ids;
              clients =
                  Unique-update same_client q f rows (λ x y h. refl) (λ x y h. refl) old.clients;
              refers = All-update _ q f rows (λ x h k. k) old.refers;
              authors =
                  All-update HasAuthor q f rows
                    (λ x h k. author_kept rt.shape u etag author now x e k) old.authors;
            })
            v)
    | inr e ↦ rw e tt
  ];
}
