-- ===== src/Db/Chunks.antt =====
-- src/db/chunks.rs: statements on the session_chunks table.
pub mod Seq
pub mod Listing
use Prim.Native.Nat.{max}
use ovp_data_api.Base.{
  ℕ, ◌+◌, ◌-◌, ◌^◌, Text, text_eq, Uuid, DateTime, Bool, true, false, not, ◌&&◌, ◌||◌, ◌==◌, ltb,
  leb, Option, none, some, List, [], ◌∷◌, ◌++◌, map, any, Result, ok, err, select, delete, update,
  first, if◌then◌else◌, order_by,
}
use ovp_data_api.Error.{AppError, database, not_found}
use ovp_data_api.Ids.{PseudoId, pseudo_eq, is_mixed, is_valid_pseudo_id}
use ovp_data_api.Db.Rows.{Db, ChunkRow}
use ovp_data_api.Db.Statement.{Stmt, fetch_or, reading, session_exists}

abbrev pub of_stream : Uuid → PseudoId → ChunkRow → Bool
of_stream session_id pseudo_id c = c.session_id == session_id && pseudo_eq c.pseudo_id pseudo_id

abbrev pub of_client : Uuid → PseudoId → Text → ChunkRow → Bool
of_client session_id pseudo_id client_chunk_id c =
    of_stream session_id pseudo_id c && text_eq c.client_chunk_id client_chunk_id

abbrev pub of_seq : Uuid → PseudoId → ℕ → ChunkRow → Bool
of_seq session_id pseudo_id seq c = of_stream session_id pseudo_id c && c.seq == seq

unfoldable pub lookup_by_client_id : Uuid → PseudoId → Text → Stmt (Option ChunkRow)
lookup_by_client_id session_id pseudo_id client_chunk_id now db =
    ok (first (select (of_client session_id pseudo_id client_chunk_id) db.chunks), db)

-- COALESCE(MAX(seq), -1) + 1 over the rows of one stream
unfoldable pub next_seq : Uuid → PseudoId → List ChunkRow → ℕ
next_seq session_id pseudo_id [] = 0
next_seq session_id pseudo_id (c ∷ cs) =
    let rest = next_seq session_id pseudo_id cs in
    if of_stream session_id pseudo_id c then max (c.seq + 1) rest else rest

-- The largest value of an INTEGER column.
abbrev pub i32_max : ℕ
i32_max = 2 ^ 31 - 1

pub record NewChunk : Type 0 where
  pub session_id : Uuid
  pub pseudo_id : PseudoId
  pub s3_key : Text
  pub size_bytes : ℕ
  pub capture_started_at : DateTime
  pub duration_ms : ℕ
  pub client_chunk_id : Text

abbrev pub chunk_row : NewChunk → ℕ → DateTime → ChunkRow
chunk_row n seq now = record {
  session_id = n.session_id;
  pseudo_id = n.pseudo_id;
  seq = seq;
  s3_key = n.s3_key;
  size_bytes = n.size_bytes;
  capture_started_at = n.capture_started_at;
  duration_ms = n.duration_ms;
  client_chunk_id = n.client_chunk_id;
  created_at = now;
}

-- The constraints of the table: the session exists, the pseudo_id is `mixed` or a pseudonym, `seq`
-- fits its column, and the client's id is new in its stream.
abbrev pub admits : NewChunk → ℕ → Db → Bool
admits n seq db =
    session_exists n.session_id db
    && (is_mixed n.pseudo_id || is_valid_pseudo_id n.pseudo_id.as_str)
    && leb seq i32_max
    && not (any (of_client n.session_id n.pseudo_id n.client_chunk_id) db.chunks)

unfoldable pub insert : NewChunk → Stmt ChunkRow
unfolding next_seq
insert n now db =
    let seq = next_seq n.session_id n.pseudo_id db.chunks in
    if admits n seq db
    then ok (chunk_row n seq now, record db { chunks = db.chunks ++ chunk_row n seq now ∷ [] })
    else err database

-- ORDER BY seq ASC
abbrev pub lower : ChunkRow → ChunkRow → Bool
lower a b = ltb a.seq b.seq

unfoldable pub by_seq : List ChunkRow → List ChunkRow
by_seq = order_by lower

unfoldable pub list : Uuid → PseudoId → Stmt (List ChunkRow)
unfolding by_seq
list session_id pseudo_id now db =
    ok (by_seq (select (of_stream session_id pseudo_id) db.chunks), db)

unfoldable pub get : Uuid → PseudoId → ℕ → Stmt ChunkRow
get session_id pseudo_id seq now db =
    reading db (fetch_or not_found (select (of_seq session_id pseudo_id seq) db.chunks))

-- UPDATE session_chunks SET s3_key = $1 WHERE … (in src/routes/chunks.rs)
unfoldable pub set_s3_key : Text → Uuid → PseudoId → ℕ → Stmt (Unit {0})
set_s3_key s3_key session_id pseudo_id seq now db = ok (
  tt,
  record db {
    chunks = update (of_seq session_id pseudo_id seq) (λ c. record c { s3_key = s3_key }) db.chunks;
  },
)

-- DELETE … RETURNING s3_key
abbrev pub delete_chunks : (ChunkRow → Bool) → Stmt (List Text)
delete_chunks p now db =
    ok (map (λ c. c.s3_key) (select p db.chunks), record db { chunks = delete p db.chunks })

unfoldable pub delete_for_session : Uuid → Stmt (List Text)
delete_for_session session_id = delete_chunks (λ c. c.session_id == session_id)

unfoldable pub delete_for_participant : Uuid → PseudoId → Stmt (List Text)
delete_for_participant session_id pseudo_id = delete_chunks (of_stream session_id pseudo_id)
