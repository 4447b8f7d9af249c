-- ===== src/Db/Uniform/Shapes.antt =====
-- src/db/uniform.rs: the rows of segments, beats and scenes, what a client sends for them, and how
-- a stored row reads.
use ovp_data_api.Base.{
  ℕ, ℤ, int_lt, Text, text, Uuid, DateTime, Bool, not, is_some, Option, none, some, List, [], ◌∷◌,
  Json, Result, ok, err, if◌then◌else◌,
}
use ovp_data_api.Error.{AppError, bad_request, from_pseudo_id_error}
use ovp_data_api.Ids.{PseudoId, ETag, is_valid_pseudo_id}
use ovp_data_api.Ids
use ovp_data_api.Db.Rows.{Db, StoredRow}

pub data TextShape : Type 0 where
  segment title_summary : TextShape

pub data Table : Type 0 where
  session_segments session_beats session_scenes : Table

pub record ResourceTable : Type 0 where
  pub table : Table
  pub shape : TextShape
  pub resource_type : Text

abbrev pub segments : ResourceTable
segments = record { table = session_segments; shape = segment; resource_type = text "segment" }

abbrev pub beats : ResourceTable
beats = record { table = session_beats; shape = title_summary; resource_type = text "beat" }

abbrev pub scenes : ResourceTable
scenes = record { table = session_scenes; shape = title_summary; resource_type = text "scene" }

abbrev pub rows_of : Table → Db → List StoredRow
rows_of session_segments db = db.segments
rows_of session_beats db = db.beats
rows_of session_scenes db = db.scenes

abbrev pub with_rows : Table → List StoredRow → Db → Db
with_rows session_segments rows db = record db { segments = rows }
with_rows session_beats rows db = record db { beats = rows }
with_rows session_scenes rows db = record db { scenes = rows }

pub record UniformRow : Type 0 where
  pub id : Uuid
  pub session_id : Uuid
  pub client_id : Text
  pub pseudo_id : Option PseudoId
  pub start_ms : ℤ
  pub end_ms : ℤ
  pub text : Option Text
  pub title : Option Text
  pub summary : Option Text
  pub confidence : Option ℕ
  pub flags : Json
  pub original : Option Json
  pub etag : ETag
  pub author_service : Text
  pub author_user_pseudo_id : Option PseudoId
  pub created_at : DateTime
  pub updated_at : DateTime

pub record CreateInput : Type 0 where
  pub client_id : Text
  pub start_ms : ℤ
  pub end_ms : ℤ
  pub pseudo_id : Option PseudoId
  pub text : Option Text
  pub title : Option Text
  pub summary : Option Text
  pub confidence : Option ℕ
  pub flags : Option Json
  pub original : Option Json
  pub author_user_pseudo_id : Option PseudoId

pub record BulkResult : Type 0 where
  pub inserted : List UniformRow
  pub deduplicated_client_ids : List Text

pub record PatchInput : Type 0 where
  pub text : Option Text
  pub title : Option Text
  pub summary : Option Text
  pub confidence : Option (Option ℕ)
  pub start_ms : Option ℤ
  pub end_ms : Option ℤ
  pub flags : Option Json
  pub author_user_pseudo_id : Option PseudoId

abbrev pub has_text : TextShape → CreateInput → Bool
has_text segment i = is_some i.text
has_text title_summary i = is_some i.title

unfoldable pub validate_inputs : ResourceTable → List CreateInput → Result AppError (Unit {0})
validate_inputs rt [] = ok tt
validate_inputs rt (i ∷ is) =
    if not (has_text rt.shape i)
    then err bad_request
    else if int_lt i.end_ms i.start_ms
    then err bad_request
    else validate_inputs rt is

abbrev pub raw : Option PseudoId → Option Text
raw none = none
raw (some p) = some p.as_str

-- A PseudoId::new on an optional column.
unfoldable pub read_pseudo : Option Text → Result AppError (Option PseudoId)
read_pseudo none = ok none
read_pseudo (some s) = elim (Ids.new s) [
  | ok p ↦ ok (some p)
  | err e ↦ err (from_pseudo_id_error e)
]

abbrev pub pseudo_column : TextShape → StoredRow → Option Text
pseudo_column segment r = r.pseudo_id
pseudo_column title_summary r = none

abbrev pub uniform : TextShape → StoredRow → Option PseudoId → Option PseudoId → UniformRow
uniform shape r pseudo author = record {
  id = r.id;
  session_id = r.session_id;
  client_id = r.client_id;
  pseudo_id = pseudo;
  start_ms = r.start_ms;
  end_ms = r.end_ms;
  text = elim shape [ segment ↦ some r.body | title_summary ↦ none ];
  title = elim shape [ segment ↦ none | title_summary ↦ some r.body ];
  summary = elim shape [ segment ↦ none | title_summary ↦ some r.summary ];
  confidence = elim shape [ segment ↦ r.confidence | title_summary ↦ none ];
  flags = r.flags;
  original = r.original;
  etag = r.etag;
  author_service = r.author_service;
  author_user_pseudo_id = author;
  created_at = r.created_at;
  updated_at = r.updated_at;
}

unfoldable pub row_from_pg : ResourceTable → StoredRow → Result AppError UniformRow
unfolding read_pseudo
row_from_pg rt r = elim (read_pseudo (pseudo_column rt.shape r)) [
  | err e ↦ err e
  | ok pseudo ↦ elim (read_pseudo r.author_user_pseudo_id) [
    | err e ↦ err e
    | ok author ↦ ok (uniform rt.shape r pseudo author)
  ]
]
