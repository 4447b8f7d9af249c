-- ===== src/Routes/Sessions.antt =====
-- src/routes/sessions.rs: the life of a session.
pub mod Patch
pub mod Refusal
pub mod Resume
pub mod Delete
use ovp_data_api.Base.{
  ℕ, ℤ, pos, ◌-◌, ◌/◌, ◌++◌, ◌&&◌, any, Text, text, Uuid, DateTime, Bool, true, false, not, ◌||◌,
  ltb, is_some, Option, none, some, unwrap_or, List, [], ◌∷◌, length, Result, ok, err, Json, null,
  bool, num, str, obj, end, member, delete, ◌==◌, if◌then◌else◌,
}
use ovp_data_api.Error.{AppError, illegal_transition, gone}
use ovp_data_api.State.{
  SessionStatus, recording, abandoned, deleted, as_str, can_transition, status_eq,
}
use ovp_data_api.Events.{Event, SessionStateChanged, session_state_changed}
use ovp_data_api.App.{
  AppState, Handler, pure, fail, exec, transaction, utc_now, send, inc_counter, audit, on_store,
  ◌>>=◌, ◌>>◌,
}
use ovp_data_api.Db.{Db, Session, Stmt}
use ovp_data_api.Db.AuditLog.{Entry}
use ovp_data_api.Db.Sessions
use ovp_data_api.Db.Sessions.{CreateSession, ListFilter, SessionSummary}
use ovp_data_api.Db.Chunks
use ovp_data_api.Db.Uniform
use ovp_data_api.Db.MuteRanges

pub record PatchSession : Type 0 where
  pub status : Option SessionStatus
  pub ended_at : Option (Option DateTime)
  pub participant_count : Option (Option ℤ)

pub record ResumeBody : Type 0 where
  pub resumed_by_service_name : Text
  pub reason : Option Text

abbrev pub str_or_null : Option Text → Json
str_or_null none = null
str_or_null (some s) = str s

abbrev pub time_or_null : (DateTime → Json) → Option DateTime → Json
time_or_null f none = null
time_or_null f (some t) = f t

-- The statements that `delete_cascade` writes out itself; a token goes with its participant.
unfoldable pub delete_metadata : Uuid → Stmt (Unit {0})
delete_metadata id now db =
    ok (tt, record db { metadata = delete (λ m. m.session_id == id) db.metadata })

abbrev pub participant_ids : Uuid → Db → Uuid → Bool
participant_ids id db p = any (λ r. r.session_id == id && r.id == p) db.participants

unfoldable pub delete_participants : Uuid → Stmt (Unit {0})
delete_participants id now db = ok (
  tt,
  record db {
    participants = delete (λ p. p.session_id == id) db.participants;
    consent_tokens = delete (λ t. participant_ids id db t.participant_id) db.consent_tokens;
  },
)

module _ {St : Type 0} (state : AppState St) where
  open state use {store, uuid_to_string, datetime_to_json, resume_ttl}

  abbrev pub session_entry : Text → Uuid → Text → Option Json → Entry
  session_entry service id action detail = record {
    actor_service = service;
    actor_pseudo = none;
    session_id = some id;
    resource_type = text "session";
    resource_id = uuid_to_string id;
    action = action;
    detail = detail;
  }

  unfoldable pub create : Text → CreateSession → Handler St Session
  create service input = do
    session ← exec (Sessions.create input)
    audit (
        session_entry service session.id (text "created")
          (some (obj (member (text "status") (str (as_str session.status)) end))))
    inc_counter (text "chronicle_sessions_created_total") 1
    pure session

  unfoldable pub fetch : Uuid → Handler St Session
  fetch id = exec (Sessions.get id)

  unfoldable pub list : ListFilter → Handler St (List Session)
  list filter = exec (Sessions.list filter)

  unfoldable pub summary : Uuid → Handler St SessionSummary
  summary id = exec (Sessions.summary id)

  -- The status part of a PATCH: the row after it and the change to announce.
  unfoldable pub patch_status :
      Uuid
      → Session
      → Option SessionStatus
      → Handler St (Session × Option (SessionStatus × SessionStatus))
  patch_status id existing none = pure (existing, none)
  patch_status id existing (some new) =
      if not (can_transition existing.status new)
      then fail (illegal_transition (as_str existing.status) (as_str new))
      else do
        updated ← exec (Sessions.update_status id new)
        pure (updated, if status_eq existing.status new then none else some (existing.status, new))

  unfoldable pub patch_rest : Uuid → Session → PatchSession → Handler St Session
  patch_rest id updated body =
      if is_some body.ended_at || is_some body.participant_count
      then exec (Sessions.patch_fields id body.ended_at body.participant_count)
      else pure updated

  abbrev pub changed : Uuid → ℤ → SessionStatus → SessionStatus → DateTime → Event
  changed id guild_id old new now =
      session_state_changed now
        (record { session_id = id; guild_id = guild_id; old = old; new = new })

  unfoldable pub announce :
      Uuid → Session → Option (SessionStatus × SessionStatus) → Handler St (Unit {0})
  announce id updated none = pure tt
  announce id updated (some (old, new)) = do
    now ← utc_now
    send (changed id updated.guild_id old new now)
    inc_counter (text "chronicle_session_state_" ++ (as_str new ++ text "_total")) 1

  unfoldable pub patch_tx :
      Text → Uuid → PatchSession → Handler St (Session × Option (SessionStatus × SessionStatus))
  unfolding patch_status patch_rest
  patch_tx service id body = do
    existing ← exec (Sessions.get id)
    moved ← patch_status id existing body.status
    updated ← patch_rest id moved.0 body
    audit (
        session_entry service id (text "patched") (
          some (
            obj (
              member (text "status") (str (as_str updated.status))
                (member (text "ended_at") (time_or_null datetime_to_json updated.ended_at) end)))))
    pure (updated, moved.1)

  unfoldable pub patch : Text → Uuid → PatchSession → Handler St Session
  unfolding patch_tx announce
  patch service id body = do
    done ← transaction (patch_tx service id body)
    announce id done.0 done.1
    pure done.0

  -- (now - anchor).num_seconds().max(0), of instants in microseconds
  abbrev pub age_seconds : DateTime → DateTime → ℕ
  age_seconds now anchor = (now - anchor) / 1_000_000

  unfoldable pub require_abandoned : SessionStatus → Handler St (Unit {0})
  require_abandoned status =
      if not (status_eq status abandoned)
      then fail (illegal_transition (as_str status) (as_str recording))
      else pure tt

  unfoldable pub require_fresh : ℕ → Handler St (Unit {0})
  require_fresh age = if ltb resume_ttl age then fail gone else pure tt

  unfoldable pub resume_tx : Text → Uuid → ResumeBody → Handler St Session
  unfolding require_abandoned require_fresh
  resume_tx service id body = do
    existing ← exec (Sessions.get id)
    require_abandoned existing.status
    now ← utc_now
    require_fresh (age_seconds now (unwrap_or existing.abandoned_at existing.started_at))
    updated ← exec (Sessions.resume_from_abandoned id)
    audit (
        session_entry service id (text "resumed") (
          some (
            obj (
              member (text "by") (str body.resumed_by_service_name)
                (member (text "reason") (str_or_null body.reason) end)))))
    pure updated

  unfoldable pub resume : Text → Uuid → ResumeBody → Handler St Session
  unfolding resume_tx
  resume service id body = do
    updated ← transaction (resume_tx service id body)
    now ← utc_now
    send (changed id updated.guild_id abandoned recording now)
    pure updated

  -- The session as it was and as it became, and the keys of its objects.
  unfoldable pub delete_tx : Text → Uuid → Handler St (Session × Session × List Text)
  delete_tx service id = do
    existing ← exec (Sessions.get id)
    keys ← exec (Chunks.delete_for_session id)
    segs ← exec (Uniform.delete_all_for_session Uniform.segments id)
    bs ← exec (Uniform.delete_all_for_session Uniform.beats id)
    ss ← exec (Uniform.delete_all_for_session Uniform.scenes id)
    mutes ← exec (MuteRanges.delete_for_session id)
    exec (delete_metadata id)
    exec (delete_participants id)
    updated ← exec (Sessions.update_status id deleted)
    audit (
        session_entry service id (text "deleted")
          (some (obj (member (text "chunk_count") (num (pos (length keys))) end))))
    pure (existing, updated, keys)

  -- `if !keys.is_empty() { … }`; a failure is logged and goes no further.
  unfoldable pub sweep : List Text → Handler St (Unit {0})
  sweep [] w = (ok tt, w)
  sweep (k ∷ ks) w =
      let (r, objects) = store.delete_many (k ∷ ks) w.objects in
      (ok tt, record w { objects = objects })

  unfoldable pub delete_cascade : Text → Uuid → Handler St Json
  unfolding delete_tx sweep
  delete_cascade service id = do
    done ← transaction (delete_tx service id)
    sweep done.2
    now ← utc_now
    send (changed id done.0.guild_id done.0.status deleted now)
    pure (
        obj (
          member (text "ok") (bool true) (
            member (text "tombstone_status") (str (as_str done.1.status))
              (member (text "s3_keys_deleted") (num (pos (length done.2))) end))))
