-- ===== src/Db/Uniform.antt =====
-- src/db/uniform.rs: segments, beats and scenes, which share one shape of row. The statements that
-- run in one transaction are put together in Uniform/Ops.
mod Shapes
pub mod Ops
pub mod Bulk
pub mod Tags
unfoldable pub use Shapes.*
use ovp_data_api.Base.{
  ℕ, ℤ, int_lt, int_eq, Text, text, text_eq, Uuid, DateTime, Bool, true, false, not, ◌&&◌, ◌||◌,
  ◌==◌, ltb, is_some, Option, none, some, unwrap_or, List, [], ◌∷◌, ◌++◌, map, any, Json, obj, end,
  Result, ok, err, select, delete, update, length, if◌then◌else◌, order_by,
}
use ovp_data_api.Error.{AppError, database, not_found, bad_request, from_pseudo_id_error}
use ovp_data_api.Ids.{PseudoId, ETag, is_valid_pseudo_id}
use ovp_data_api.Ids
use ovp_data_api.Db.Rows.{Db, StoredRow}
use ovp_data_api.Db.Statement.{Stmt, fetch_or, fetch_one, reading, session_exists}

-- CHECK (author_user_pseudo_id IS NULL OR author_user_pseudo_id ~ '^[0-9a-f]{24}$')
abbrev pub author_ok : Option Text → Bool
author_ok none = true
author_ok (some s) = is_valid_pseudo_id s

abbrev pub of_session_client : Uuid → Text → StoredRow → Bool
of_session_client session_id client_id r =
    r.session_id == session_id && text_eq r.client_id client_id

-- The row that an insertion writes.
abbrev pub stored_row : TextShape → Uuid → Uuid → Text → CreateInput → ETag → DateTime → StoredRow
stored_row shape id session_id author_service i etag now = record {
  id = id;
  session_id = session_id;
  client_id = i.client_id;
  pseudo_id = elim shape [ segment ↦ raw i.pseudo_id | title_summary ↦ none ];
  start_ms = i.start_ms;
  end_ms = i.end_ms;
  body = elim shape [ segment ↦ unwrap_or i.text [] | title_summary ↦ unwrap_or i.title [] ];
  summary = elim shape [ segment ↦ [] | title_summary ↦ unwrap_or i.summary [] ];
  confidence = elim shape [ segment ↦ i.confidence | title_summary ↦ none ];
  flags = unwrap_or i.flags (obj end);
  original = i.original;
  etag = etag;
  author_service = author_service;
  author_user_pseudo_id = raw i.author_user_pseudo_id;
  created_at = now;
  updated_at = now;
}

abbrev pub has_id : Uuid → StoredRow → Bool
has_id id r = r.id == id

-- The constraints of the table: the session exists, the id is new, the client's id is new in its
-- session, and the author is a pseudonym.
abbrev pub admits : Table → StoredRow → Db → Bool
admits t r db =
    session_exists r.session_id db
    && not (any (has_id r.id) (rows_of t db))
    && not (any (of_session_client r.session_id r.client_id) (rows_of t db))
    && author_ok r.author_user_pseudo_id

unfoldable pub insert_stored : Table → StoredRow → Stmt StoredRow
insert_stored t r now db =
    if admits t r db then ok (r, with_rows t (rows_of t db ++ r ∷ []) db) else err database

-- SELECT client_id FROM … WHERE session_id = $1 AND client_id = ANY($2)
unfoldable pub existing_client_ids : ResourceTable → Uuid → List Text → Stmt (List Text)
existing_client_ids rt session_id submitted now db = ok (
  map (λ r. r.client_id)
      (select (λ r. r.session_id == session_id && any (λ c. text_eq r.client_id c) submitted)
        (rows_of rt.table db)),
  db,
)

unfoldable pub fetch : ResourceTable → Uuid → Stmt StoredRow
fetch rt id now db = reading db (fetch_or not_found (select (has_id id) (rows_of rt.table db)))

unfoldable pub apply_patch : ResourceTable → PatchInput → UniformRow → UniformRow
apply_patch rt p existing = elim rt.shape [
  | segment ↦ record timed {
    text = elim p.text [ none ↦ existing.text | some t ↦ some t ];
    confidence = unwrap_or p.confidence existing.confidence;
  }
  | title_summary ↦ record timed {
    title = elim p.title [ none ↦ existing.title | some t ↦ some t ];
    summary = elim p.summary [ none ↦ existing.summary | some s ↦ some s ];
  }
]
  where
    timed : UniformRow
    timed = record existing {
      start_ms = unwrap_or p.start_ms existing.start_ms;
      end_ms = unwrap_or p.end_ms existing.end_ms;
      flags = unwrap_or p.flags existing.flags;
    }

-- The SET clause of the two UPDATE statements; COALESCE keeps the author where none is given.
abbrev pub written :
    TextShape → UniformRow → ETag → Option PseudoId → DateTime → StoredRow → StoredRow
written shape patched etag author now r = record r {
  start_ms = patched.start_ms;
  end_ms = patched.end_ms;
  body = elim shape [
    | segment ↦ unwrap_or patched.text []
    | title_summary ↦ unwrap_or patched.title []
  ];
  confidence = elim shape [ segment ↦ patched.confidence | title_summary ↦ r.confidence ];
  summary = elim shape [ segment ↦ r.summary | title_summary ↦ unwrap_or patched.summary [] ];
  flags = patched.flags;
  etag = etag;
  author_user_pseudo_id = elim author [ none ↦ r.author_user_pseudo_id | some p ↦ some p.as_str ];
  updated_at = now;
}

unfoldable pub update_stored :
    ResourceTable → Uuid → UniformRow → ETag → Option PseudoId → Stmt StoredRow
update_stored rt id patched etag author now db =
    if author_ok (raw author)
    then reading
        (with_rows rt.table
          (update (has_id id) (written rt.shape patched etag author now) (rows_of rt.table db)) db)
        (fetch_one (
          map (written rt.shape patched etag author now)
            (select (has_id id) (rows_of rt.table db))))
    else err database

unfoldable pub delete_stored : ResourceTable → Uuid → Stmt StoredRow
delete_stored rt id now db =
    reading (with_rows rt.table (delete (has_id id) (rows_of rt.table db)) db)
      (fetch_or not_found (select (has_id id) (rows_of rt.table db)))

unfoldable pub delete_all_for_session : ResourceTable → Uuid → Stmt ℕ
delete_all_for_session rt session_id now db =
    let p = λ (r : StoredRow). r.session_id == session_id in
    ok (
      length (select p (rows_of rt.table db)),
      with_rows rt.table (delete p (rows_of rt.table db)) db,
    )

abbrev pub is_text : Text → Option Text → Bool
is_text s none = false
is_text s (some t) = text_eq t s

abbrev pub of_participant : Uuid → PseudoId → StoredRow → Bool
of_participant session_id p r = r.session_id == session_id && is_text p.as_str r.pseudo_id

unfoldable pub delete_for_participant_segments : Uuid → PseudoId → Stmt ℕ
delete_for_participant_segments session_id pseudo_id now db =
    let p = of_participant session_id pseudo_id in
    ok (length (select p db.segments), record db { segments = delete p db.segments })

-- ORDER BY start_ms ASC, id ASC
abbrev pub row_before : StoredRow → StoredRow → Bool
row_before a b = int_lt a.start_ms b.start_ms || (int_eq a.start_ms b.start_ms && ltb a.id b.id)

unfoldable pub by_start : List StoredRow → List StoredRow
by_start = order_by row_before

abbrev pub wanted : Option PseudoId → Option ℤ → StoredRow → Bool
wanted none none r = true
wanted none (some since) r = not (int_lt r.start_ms since)
wanted (some p) none r = is_text p.as_str r.pseudo_id
wanted (some p) (some since) r = is_text p.as_str r.pseudo_id && not (int_lt r.start_ms since)

-- The statement names the column `pseudo_id`, which session_segments alone has.
unfoldable pub select_by_session :
    ResourceTable → Uuid → Option PseudoId → Option ℤ → Stmt (List StoredRow)
unfolding by_start
select_by_session rt session_id pseudo_id since_ms now db = elim rt.table [
  | session_segments ↦ ok (
    by_start (select (λ r. r.session_id == session_id && wanted pseudo_id since_ms r) db.segments),
    db,
  )
  | session_beats ↦ err database
  | session_scenes ↦ err database
]

-- collect::<Result<_, _>>()
unfoldable pub collect_rows : ResourceTable → List StoredRow → Result AppError (List UniformRow)
collect_rows rt [] = ok []
collect_rows rt (r ∷ rs) = elim (row_from_pg rt r) [
  | err e ↦ err e
  | ok u ↦ elim (collect_rows rt rs) [ err e ↦ err e | ok us ↦ ok (u ∷ us) ]
]
