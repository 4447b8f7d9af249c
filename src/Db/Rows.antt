-- ===== src/Db/Rows.antt =====
-- The rows of the tables: the row structs of src/db/ with the columns of migrations/.
use ovp_data_api.Base.{ℕ, ℤ, Text, Uuid, DateTime, Bool, Option, List, Json}
use ovp_data_api.Ids.{PseudoId, ETag}
use ovp_data_api.State.{SessionStatus}

pub record User : Type 0 where
  pub pseudo_id : PseudoId
  pub is_admin : Bool
  pub data_wiped_at : Option DateTime
  pub created_at : DateTime

pub record DisplayName : Type 0 where
  pub pseudo_id : PseudoId
  pub display_name : Text
  pub first_seen_at : DateTime
  pub last_seen_at : DateTime
  pub seen_count : ℕ
  pub source : Text

pub record Session : Type 0 where
  pub id : Uuid
  pub guild_id : ℤ
  pub started_at : DateTime
  pub ended_at : Option DateTime
  pub abandoned_at : Option DateTime
  pub deleted_at : Option DateTime
  pub game_system : Option Text
  pub campaign_name : Option Text
  pub participant_count : Option ℤ
  pub s3_prefix : Text
  pub status : SessionStatus
  pub created_at : DateTime

pub record Participant : Type 0 where
  pub id : Uuid
  pub session_id : Uuid
  pub pseudo_id : PseudoId
  pub consent_scope : Option Text
  pub consented_at : Option DateTime
  pub mid_session_join : Bool
  pub no_llm_training : Bool
  pub no_public_release : Bool
  pub data_wiped_at : Option DateTime
  pub created_at : DateTime

pub record MetadataBlob : Type 0 where
  pub session_id : Uuid
  pub blob : Json
  pub etag : ETag
  pub updated_at : DateTime

pub record ChunkRow : Type 0 where
  pub session_id : Uuid
  pub pseudo_id : PseudoId
  pub seq : ℕ
  pub s3_key : Text
  pub size_bytes : ℕ
  pub capture_started_at : DateTime
  pub duration_ms : ℕ
  pub client_chunk_id : Text
  pub created_at : DateTime

-- A row of session_segments, session_beats or session_scenes: `body` is the column `text` or
-- `title`; `pseudo_id` and `confidence` are columns of session_segments alone, `summary` of the
-- other two. A confidence is an f64, as its bits.
pub record StoredRow : Type 0 where
  pub id : Uuid
  pub session_id : Uuid
  pub client_id : Text
  pub pseudo_id : Option Text
  pub start_ms : ℤ
  pub end_ms : ℤ
  pub body : Text
  pub summary : Text
  pub confidence : Option ℕ
  pub flags : Json
  pub original : Option Json
  pub etag : ETag
  pub author_service : Text
  pub author_user_pseudo_id : Option Text
  pub created_at : DateTime
  pub updated_at : DateTime

pub record MuteRange : Type 0 where
  pub id : Uuid
  pub session_id : Uuid
  pub pseudo_id : PseudoId
  pub start_offset_ms : ℤ
  pub end_offset_ms : ℤ
  pub reason : Option Text
  pub created_at : DateTime

pub record AuditRow : Type 0 where
  pub id : Uuid
  pub at_ts : DateTime
  pub actor_service : Text
  pub actor_pseudo : Option Text
  pub session_id : Option Uuid
  pub resource_type : Text
  pub resource_id : Text
  pub action : Text
  pub detail : Option Json

pub record ServiceSession : Type 0 where
  pub id : Uuid
  pub service_name : Text
  pub token_hash : Text
  pub created_at : DateTime
  pub last_seen_at : DateTime

pub record ConsentToken : Type 0 where
  pub token : Uuid
  pub session_id : Uuid
  pub participant_id : Uuid
  pub pseudo_id : PseudoId
  pub created_at : DateTime
  pub expires_at : DateTime
  pub revoked_at : Option DateTime

pub record Db : Type 0 where
  pub users : List User
  pub display_names : List DisplayName
  pub sessions : List Session
  pub participants : List Participant
  pub metadata : List MetadataBlob
  pub chunks : List ChunkRow
  pub segments : List StoredRow
  pub beats : List StoredRow
  pub scenes : List StoredRow
  pub mute_ranges : List MuteRange
  pub audit_log : List AuditRow
  pub service_sessions : List ServiceSession
  pub consent_tokens : List ConsentToken
