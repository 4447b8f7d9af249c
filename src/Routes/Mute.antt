-- ===== src/Routes/Mute.antt =====
-- src/routes/mute.rs: mute ranges, and the deletion of a participant's audio.
pub mod Wipe
use ovp_data_api.Base.{
  ℕ, ℤ, pos, ◌++◌, Text, text, Uuid, true, Option, none, some, List, [], length, Json, Members,
  bool, num, end, obj, member,
}
use ovp_data_api.Error.{AppError, not_found}
use ovp_data_api.Ids.{PseudoId}
use ovp_data_api.Ids
use ovp_data_api.Events.{
  Event, MuteRangeRef, AudioDeleted, mute_range_created, mute_range_deleted, audio_deleted,
}
use ovp_data_api.App.{
  AppState, Handler, pure, checked, exec, transaction, new_uuid, utc_now, send, audit, ◌>>=◌, ◌>>◌,
}
use ovp_data_api.Db.{MuteRange, Stmt}
use ovp_data_api.Db.AuditLog.{Entry}
use ovp_data_api.Db.Chunks
use ovp_data_api.Db.Uniform
use ovp_data_api.Db.MuteRanges
use ovp_data_api.Db.MuteRanges.{CreateMuteRange}
use ovp_data_api.Db.Participants
use ovp_data_api.Routes.Guild.{guild_id_or}
use ovp_data_api.Routes.Sessions.{sweep}

unfoldable pub guild_id_for_session : Uuid → Stmt ℤ
guild_id_for_session = guild_id_or not_found

abbrev pub wiped_counts : ℕ → ℕ → ℕ → Members
wiped_counts chunk_count segment_count mute_count =
    member (text "chunk_count") (num (pos chunk_count)) (
      member (text "segment_count") (num (pos segment_count))
        (member (text "mute_count") (num (pos mute_count)) end))

abbrev pub offsets : MuteRange → Json
offsets row = obj (
    member (text "start_offset_ms") (num row.start_offset_ms)
      (member (text "end_offset_ms") (num row.end_offset_ms) end))

abbrev pub range_ref : Uuid → ℤ → PseudoId → Uuid → MuteRangeRef
range_ref session_id guild_id pid range_id = record {
  session_id = session_id;
  guild_id = guild_id;
  pseudo_id = pid;
  range_id = range_id;
}

module _ {St : Type 0} (state : AppState St) where
  open state use {uuid_to_string}

  abbrev pub mute_entry : Text → PseudoId → Uuid → Uuid → Text → Option Json → Entry
  mute_entry service pid session_id range_id action detail = record {
    actor_service = service;
    actor_pseudo = some pid.as_str;
    session_id = some session_id;
    resource_type = text "mute_range";
    resource_id = uuid_to_string range_id;
    action = action;
    detail = detail;
  }

  unfoldable pub list_mutes : Uuid → Text → Handler St (List MuteRange)
  list_mutes session_id pid_raw = do
    pid ← checked (Ids.new pid_raw)
    exec (MuteRanges.list session_id pid)

  unfoldable pub create_mute : Text → Uuid → Text → CreateMuteRange → Handler St MuteRange
  unfolding guild_id_for_session
  create_mute service session_id pid_raw input = do
    pid ← checked (Ids.new pid_raw)
    id ← new_uuid
    row ← exec (MuteRanges.create id session_id pid input)
    audit (mute_entry service pid session_id row.id (text "created") (some (offsets row)))
    guild_id ← exec (guild_id_for_session session_id)
    now ← utc_now
    send (mute_range_created now (range_ref session_id guild_id pid row.id))
    pure row

  unfoldable pub delete_mute : Text → Uuid → Text → Uuid → Handler St (Unit {0})
  unfolding guild_id_for_session
  delete_mute service session_id pid_raw range_id = do
    pid ← checked (Ids.new pid_raw)
    row ← exec (MuteRanges.delete_one session_id pid range_id)
    audit (mute_entry service pid session_id range_id (text "deleted") none)
    guild_id ← exec (guild_id_for_session session_id)
    now ← utc_now
    send (mute_range_deleted now (range_ref session_id guild_id pid row.id))

  abbrev pub audio_entry : Text → Text → PseudoId → Uuid → Json → Entry
  audio_entry service action pid session_id detail = record {
    actor_service = service;
    actor_pseudo = some pid.as_str;
    session_id = some session_id;
    resource_type = text "participant_audio";
    resource_id = uuid_to_string session_id ++ (text "/" ++ pid.as_str);
    action = action;
    detail = some detail;
  }

  -- The keys of the deleted chunks, and how many segments and mute ranges went with them.
  unfoldable pub wipe_tx : Text → Uuid → PseudoId → Handler St (List Text × ℕ × ℕ)
  wipe_tx service session_id pid = do
    keys ← exec (Chunks.delete_for_participant session_id pid)
    segs ← exec (Uniform.delete_for_participant_segments session_id pid)
    mutes ← exec (MuteRanges.delete_for_participant session_id pid)
    audit (
        audio_entry service (text "wiped") pid session_id
          (obj (wiped_counts (length keys) segs mutes)))
    pure (keys, segs, mutes)

  unfoldable pub wipe_participant_audio : Text → Uuid → Text → Handler St Json
  unfolding wipe_tx guild_id_for_session
  wipe_participant_audio service session_id pid_raw = do
    pid ← checked (Ids.new pid_raw)
    done ← transaction (wipe_tx service session_id pid)
    exec (Participants.mark_wiped session_id pid)
    sweep state done.0
    guild_id ← exec (guild_id_for_session session_id)
    now ← utc_now
    send (
        audio_deleted now
          (record { session_id = session_id; guild_id = guild_id; pseudo_id = pid }))
    pure (obj (member (text "ok") (bool true) (wiped_counts (length done.0) done.1 done.2)))
