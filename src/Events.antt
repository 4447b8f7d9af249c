-- ===== src/Events.antt =====
-- src/events.rs: the events of the bus, with the session, the guild and the name of each.
use ovp_data_api.Base.{ℕ, ℤ, Text, text, Uuid, DateTime}
use ovp_data_api.Ids.{PseudoId}
use ovp_data_api.State.{SessionStatus}

pub record SessionStateChanged : Type 0 where
  pub session_id : Uuid
  pub guild_id : ℤ
  pub old : SessionStatus
  pub new : SessionStatus

pub record ChunkUploaded : Type 0 where
  pub session_id : Uuid
  pub guild_id : ℤ
  pub pseudo_id : PseudoId
  pub seq : ℕ
  pub size_bytes : ℕ

pub record ResourceRef : Type 0 where
  pub session_id : Uuid
  pub guild_id : ℤ
  pub id : Uuid

pub record MuteRangeRef : Type 0 where
  pub session_id : Uuid
  pub guild_id : ℤ
  pub pseudo_id : PseudoId
  pub range_id : Uuid

pub record AudioDeleted : Type 0 where
  pub session_id : Uuid
  pub guild_id : ℤ
  pub pseudo_id : PseudoId

-- The first argument of a constructor is `at_ts`.
pub data Event : Type 0 where
  session_state_changed : DateTime → SessionStateChanged → Event
  chunk_uploaded : DateTime → ChunkUploaded → Event
  segment_created segment_updated segment_deleted : DateTime → ResourceRef → Event
  beat_created beat_updated beat_deleted : DateTime → ResourceRef → Event
  scene_created scene_updated scene_deleted : DateTime → ResourceRef → Event
  mute_range_created mute_range_deleted : DateTime → MuteRangeRef → Event
  audio_deleted : DateTime → AudioDeleted → Event

unfoldable pub session_id : Event → Uuid
session_id (session_state_changed at_ts d) = d.session_id
session_id (chunk_uploaded at_ts d) = d.session_id
session_id (segment_created at_ts d) = d.session_id
session_id (segment_updated at_ts d) = d.session_id
session_id (segment_deleted at_ts d) = d.session_id
session_id (beat_created at_ts d) = d.session_id
session_id (beat_updated at_ts d) = d.session_id
session_id (beat_deleted at_ts d) = d.session_id
session_id (scene_created at_ts d) = d.session_id
session_id (scene_updated at_ts d) = d.session_id
session_id (scene_deleted at_ts d) = d.session_id
session_id (mute_range_created at_ts d) = d.session_id
session_id (mute_range_deleted at_ts d) = d.session_id
session_id (audio_deleted at_ts d) = d.session_id

unfoldable pub guild_id : Event → ℤ
guild_id (session_state_changed at_ts d) = d.guild_id
guild_id (chunk_uploaded at_ts d) = d.guild_id
guild_id (segment_created at_ts d) = d.guild_id
guild_id (segment_updated at_ts d) = d.guild_id
guild_id (segment_deleted at_ts d) = d.guild_id
guild_id (beat_created at_ts d) = d.guild_id
guild_id (beat_updated at_ts d) = d.guild_id
guild_id (beat_deleted at_ts d) = d.guild_id
guild_id (scene_created at_ts d) = d.guild_id
guild_id (scene_updated at_ts d) = d.guild_id
guild_id (scene_deleted at_ts d) = d.guild_id
guild_id (mute_range_created at_ts d) = d.guild_id
guild_id (mute_range_deleted at_ts d) = d.guild_id
guild_id (audio_deleted at_ts d) = d.guild_id

unfoldable pub name : Event → Text
name (session_state_changed at_ts d) = text "session_state_changed"
name (chunk_uploaded at_ts d) = text "chunk_uploaded"
name (segment_created at_ts d) = text "segment_created"
name (segment_updated at_ts d) = text "segment_updated"
name (segment_deleted at_ts d) = text "segment_deleted"
name (beat_created at_ts d) = text "beat_created"
name (beat_updated at_ts d) = text "beat_updated"
name (beat_deleted at_ts d) = text "beat_deleted"
name (scene_created at_ts d) = text "scene_created"
name (scene_updated at_ts d) = text "scene_updated"
name (scene_deleted at_ts d) = text "scene_deleted"
name (mute_range_created at_ts d) = text "mute_range_created"
name (mute_range_deleted at_ts d) = text "mute_range_deleted"
name (audio_deleted at_ts d) = text "audio_deleted"
