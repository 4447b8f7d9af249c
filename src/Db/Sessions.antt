-- ===== src/Db/Sessions.antt =====
-- src/db/sessions.rs: statements on the sessions table.
pub mod Rows
use ovp_data_api.Base.{
  ℕ, ℤ, int_eq, ◌+◌, Text, text_eq, Uuid, DateTime, Bool, true, false, ◌&&◌, ◌||◌, ◌==◌, ltb,
  Option, none, some, List, [], ◌∷◌, map, length, any, drop, take, Result, ok, err, select, update,
  if◌then◌else◌, pos, negsuc, unwrap_or, is_some, order_by,
}
use ovp_data_api.Error.{AppError, database, not_found, from_unknown_status}
use ovp_data_api.State.{
  SessionStatus, recording, abandoned, deleted, as_str, from_str, status_eq, UnknownStatus,
}
use ovp_data_api.Db.Rows.{Db, Session, ChunkRow, Participant}
use ovp_data_api.Db.Statement.{Stmt, fetch_or, fetch_one, reading, session_exists}

pub record CreateSession : Type 0 where
  pub id : Uuid
  pub guild_id : ℤ
  pub started_at : DateTime
  pub game_system : Option Text
  pub campaign_name : Option Text
  pub s3_prefix : Text

abbrev pub created : CreateSession → DateTime → Session
created input now = record {
  id = input.id;
  guild_id = input.guild_id;
  started_at = input.started_at;
  ended_at = none;
  abandoned_at = none;
  deleted_at = none;
  game_system = input.game_system;
  campaign_name = input.campaign_name;
  participant_count = none;
  s3_prefix = input.s3_prefix;
  status = recording;
  created_at = now;
}

unfoldable pub create : CreateSession → Stmt Session
unfolding session_exists
create input now db =
    if session_exists input.id db
    then err database
    else ok (created input now, record db { sessions = created input now ∷ db.sessions })

abbrev pub has_id : Uuid → Session → Bool
has_id id s = s.id == id

-- `get` and `get_in_tx`
unfoldable pub get : Uuid → Stmt Session
get id now db = reading db (fetch_or not_found (select (has_id id) db.sessions))

-- UPDATE sessions SET … WHERE id = $1 RETURNING *
unfoldable pub update_row : Uuid → (Session → Session) → Db → Result AppError (Session × Db)
update_row id f db =
    reading (record db { sessions = update (has_id id) f db.sessions })
      (fetch_one (map f (select (has_id id) db.sessions)))

unfoldable pub with_status : SessionStatus → DateTime → Session → Session
with_status status now s = record s {
  status = status;
  abandoned_at = if status_eq status abandoned then some now else s.abandoned_at;
  deleted_at = if status_eq status deleted then some now else s.deleted_at;
}

unfoldable pub update_status : Uuid → SessionStatus → Stmt Session
unfolding update_row with_status
update_status id status now db = update_row id (with_status status now) db

abbrev pub set_or : {A : Type 0} → Option A → A → A
set_or none old = old
set_or (some new) old = new

unfoldable pub with_fields : Option (Option DateTime) → Option (Option ℤ) → Session → Session
with_fields ended_at participant_count s = record s {
  ended_at = set_or ended_at s.ended_at;
  participant_count = set_or participant_count s.participant_count;
}

unfoldable pub patch_fields : Uuid → Option (Option DateTime) → Option (Option ℤ) → Stmt Session
unfolding update_row with_fields
patch_fields id ended_at participant_count now db =
    update_row id (with_fields ended_at participant_count) db

unfoldable pub resumed : Session → Session
resumed s = record s { status = recording; abandoned_at = none }

unfoldable pub resume_from_abandoned : Uuid → Stmt Session
unfolding update_row resumed
resume_from_abandoned id now db = update_row id resumed db

pub record ListFilter : Type 0 where
  pub status : Option Text
  pub guild_id : Option ℤ
  pub limit : Option ℤ
  pub offset : Option ℤ

abbrev pub parse_status : Option Text → Result AppError (Option SessionStatus)
parse_status none = ok none
parse_status (some s) = elim (from_str s) [
  | ok status ↦ ok (some status)
  | err e ↦ err (from_unknown_status e)
]

abbrev pub passes : Option SessionStatus → Option ℤ → Session → Bool
passes none none s = true
passes (some status) none s = status_eq s.status status
passes none (some g) s = int_eq s.guild_id g
passes (some status) (some g) s = status_eq s.status status && int_eq s.guild_id g

-- ORDER BY started_at DESC
abbrev pub newer : Session → Session → Bool
newer a b = ltb b.started_at a.started_at

unfoldable pub newest_first : List Session → List Session
newest_first = order_by newer

-- LIMIT and OFFSET, which must not be negative
abbrev pub page : ℤ → ℤ → List Session → Result AppError (List Session)
page (pos limit) (pos offset) rows = ok (take limit (drop offset rows))
page _ (negsuc n) rows = err database
page (negsuc n) _ rows = err database

unfoldable pub list : ListFilter → Stmt (List Session)
unfolding newest_first
list f now db = elim (parse_status f.status) [
  | err e ↦ err e
  | ok status ↦ reading db (
      page (unwrap_or f.limit (pos 100)) (unwrap_or f.offset (pos 0))
        (newest_first (select (passes status f.guild_id) db.sessions)))
]

pub record LicenseFlags : Type 0 where
  pub no_llm_training : Bool
  pub no_public_release : Bool

pub record SessionSummary : Type 0 where
  pub session_id : Uuid
  pub chunk_count : ℕ
  pub participant_count : ℕ
  pub duration_ms : ℕ
  pub segment_count : ℕ
  pub beat_count : ℕ
  pub scene_count : ℕ
  pub mute_range_count : ℕ
  pub aggregate_license_flags : LicenseFlags

-- COALESCE(SUM(duration_ms), 0)
abbrev pub total_duration : List ChunkRow → ℕ
total_duration [] = 0
total_duration (c ∷ cs) = c.duration_ms + total_duration cs

unfoldable pub summary : Uuid → Stmt SessionSummary
summary id now db =
    let chunks = select (λ c. c.session_id == id) db.chunks in
    let participants = select (λ p. p.session_id == id) db.participants in
    ok (
      record {
        session_id = id;
        chunk_count = length chunks;
        participant_count = length participants;
        duration_ms = total_duration chunks;
        segment_count = length (select (λ r. r.session_id == id) db.segments);
        beat_count = length (select (λ r. r.session_id == id) db.beats);
        scene_count = length (select (λ r. r.session_id == id) db.scenes);
        mute_range_count = length (select (λ r. r.session_id == id) db.mute_ranges);
        aggregate_license_flags = record {
          no_llm_training = any (λ p. p.no_llm_training) participants;
          no_public_release = any (λ p. p.no_public_release) participants;
        };
      },
      db,
    )
