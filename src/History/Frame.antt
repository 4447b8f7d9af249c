-- ===== src/History/Frame.antt =====
-- src/db/: which statements leave the sessions and the audit log alone.
use ovp_data_api.Base.{
  ℕ, ℤ, DateTime, Bool, Text, Uuid, Json, Option, Result, ok, err, ◌≡◌, refl, ◌∙◌, arith,
}
use ovp_data_api.Error.{AppError}
use ovp_data_api.State.{SessionStatus}
use ovp_data_api.Ids.{PseudoId, ETag}
use ovp_data_api.Db.{Db, StoredRow, Stmt}
use ovp_data_api.Db.AuditLog
use ovp_data_api.Db.Chunks
use ovp_data_api.Db.ConsentTokens
use ovp_data_api.Db.DisplayNames
use ovp_data_api.Db.Metadata
use ovp_data_api.Db.MuteRanges
use ovp_data_api.Db.Participants
use ovp_data_api.Db.ServiceSessions
use ovp_data_api.Db.Sessions
use ovp_data_api.Db.Uniform
use ovp_data_api.Db.Uniform.{
  UniformRow, ResourceTable, Table, session_segments, session_beats, session_scenes,
}
use ovp_data_api.Db.Users
use ovp_data_api.History.Evolve.{Evolution, Steps, Moved}
use ovp_data_api.History.Laws.{Laws, seeded}
use ovp_data_api.Routes.Sessions.{delete_metadata, delete_participants}

-- The two tables of which rows never go.
abbrev pub Frame : Db → Db → Type 0
Frame a b = (b.sessions ≡ a.sessions) × (b.audit_log ≡ a.audit_log)

abbrev pub frame : Evolution
frame = record {
  rel = Frame;
  stays = λ db. (refl, refl);
  joins = λ a b c h k. (k.0 ∙ h.0, k.1 ∙ h.1);
}

chunk_insert : (n : Chunks.NewChunk) → Steps frame (Chunks.insert n)
unfolding Chunks.insert
chunk_insert n = record { step = λ now db. ground arith }

chunk_key :
    (k : Text) (id : Uuid) (p : PseudoId) (seq : ℕ) → Steps frame (Chunks.set_s3_key k id p seq)
unfolding Chunks.set_s3_key
chunk_key k id p seq = record { step = λ now db. ground arith }

chunk_session : (id : Uuid) → Steps frame (Chunks.delete_for_session id)
unfolding Chunks.delete_for_session
chunk_session id = record { step = λ now db. ground arith }

chunk_stream : (id : Uuid) (p : PseudoId) → Steps frame (Chunks.delete_for_participant id p)
unfolding Chunks.delete_for_participant
chunk_stream id p = record { step = λ now db. ground arith }

row_insert : (t : Table) (r : StoredRow) → Steps frame (Uniform.insert_stored t r)
unfolding Uniform.insert_stored
row_insert t r = record { step = λ now db. ground arith }

row_update :
    (rt : ResourceTable) (id : Uuid) (u : UniformRow) (etag : ETag) (author : Option PseudoId)
    → Steps frame (Uniform.update_stored rt id u etag author)
unfolding Uniform.update_stored
row_update rt id u etag author = record { step = λ now db. ground arith }

row_delete : (rt : ResourceTable) (id : Uuid) → Steps frame (Uniform.delete_stored rt id)
unfolding Uniform.delete_stored
row_delete rt id = record { step = λ now db. ground arith }

row_session : (rt : ResourceTable) (id : Uuid) → Steps frame (Uniform.delete_all_for_session rt id)
unfolding Uniform.delete_all_for_session
row_session rt id = record { step = λ now db. ground arith }

row_stream : (id : Uuid) (p : PseudoId) → Steps frame (Uniform.delete_for_participant_segments id p)
unfolding Uniform.delete_for_participant_segments
row_stream id p = record { step = λ now db. ground arith }

mute_create :
    (i id : Uuid) (p : PseudoId) (m : MuteRanges.CreateMuteRange)
    → Steps frame (MuteRanges.create i id p m)
unfolding MuteRanges.create
mute_create i id p m = record { step = λ now db. ground arith }

mute_delete : (id : Uuid) (p : PseudoId) (i : Uuid) → Steps frame (MuteRanges.delete_one id p i)
unfolding MuteRanges.delete_one
mute_delete id p i = record { step = λ now db. ground arith }

mute_session : (id : Uuid) → Steps frame (MuteRanges.delete_for_session id)
unfolding MuteRanges.delete_for_session
mute_session id = record { step = λ now db. ground arith }

mute_stream : (id : Uuid) (p : PseudoId) → Steps frame (MuteRanges.delete_for_participant id p)
unfolding MuteRanges.delete_for_participant
mute_stream id p = record { step = λ now db. ground arith }

session_metadata : (id : Uuid) → Steps frame (delete_metadata id)
unfolding delete_metadata
session_metadata id = record { step = λ now db. ground arith }

session_participants : (id : Uuid) → Steps frame (delete_participants id)
unfolding delete_participants
session_participants id = record { step = λ now db. ground arith }

metadata_upsert : (id : Uuid) (j : Json) (etag : ETag) → Steps frame (Metadata.upsert id j etag)
unfolding Metadata.upsert
metadata_upsert id j etag = record { step = λ now db. ground arith }

participant_seed : (p : PseudoId) → Steps frame (seeded p)
unfolding Participants.seed_user
participant_seed p = record { step = λ now db. ground arith }

participant_upsert :
    (i id : Uuid) (a : Participants.AddParticipant) → Steps frame (Participants.upsert i id a)
unfolding Participants.upsert
participant_upsert i id a = record { step = λ now db. ground arith }

participant_consent :
    (id : Uuid) (c : Participants.UpdateConsent) → Steps frame (Participants.update_consent id c)
unfolding Participants.update_consent
participant_consent id c = record { step = λ now db. ground arith }

participant_license :
    (id : Uuid) (l : Participants.UpdateLicense) → Steps frame (Participants.update_license id l)
unfolding Participants.update_license
participant_license id l = record { step = λ now db. ground arith }

participant_wiped : (id : Uuid) (p : PseudoId) → Steps frame (Participants.mark_wiped id p)
unfolding Participants.mark_wiped
participant_wiped id p = record { step = λ now db. ground arith }

user_upsert : (u : Users.UpsertUser) → Steps frame (Users.upsert u)
unfolding Users.upsert
user_upsert u = record { step = λ now db. ground arith }

user_admin : (p : PseudoId) (b : Bool) → Steps frame (Users.set_admin p b)
unfolding Users.set_admin
user_admin p b = record { step = λ now db. ground arith }

alias_upsert :
    (p : PseudoId) (d : DisplayNames.UpsertDisplayName) → Steps frame (DisplayNames.upsert p d)
unfolding DisplayNames.upsert
alias_upsert p d = record { step = λ now db. ground arith }

token_create : (t s r : Uuid) (p : PseudoId) → Steps frame (ConsentTokens.create t s r p)
unfolding ConsentTokens.create
token_create t s r p = record { step = λ now db. ground arith }

service_insert : (i : Uuid) (name hash : Text) → Steps frame (ServiceSessions.insert i name hash)
unfolding ServiceSessions.insert
service_insert i name hash = record { step = λ now db. ground arith }

service_touch : (hash : Text) → Steps frame (ServiceSessions.touch hash)
unfolding ServiceSessions.touch
service_touch hash = record { step = λ now db. ground arith }

service_reap : (window : ℕ) → Steps frame (ServiceSessions.reap_stale window)
unfolding ServiceSessions.reap_stale
service_reap window = record { step = λ now db. ground arith }

-- The laws of a relation that the other tables do not touch: what is left are the statements on the
-- sessions and the log.
pub record Core (E : Evolution) (actor : Text) : Type 0 where
  pub framed : (a b : Db) → Frame a b → E.rel a b
  pub session_create : (i : Sessions.CreateSession) → Steps E (Sessions.create i)
  pub session_status :
      (id : Uuid) (status : SessionStatus) → Steps E (Sessions.update_status id status)
  pub session_fields :
      (id : Uuid) (e : Option (Option DateTime)) (n : Option (Option ℤ))
      → Steps E (Sessions.patch_fields id e n)
  pub session_resume : (id : Uuid) → Steps E (Sessions.resume_from_abandoned id)
  pub audit_append :
      (id : Uuid) (e : AuditLog.Entry) → e.actor_service ≡ actor → Steps E (AuditLog.append id e)

module _ {E : Evolution} {actor : Text} (core : Core E actor) where
  widened :
      {A : Type 0} (db : Db) (r : Result AppError (A × Db)) → Moved Frame db r → Moved E.rel db r
  widened db (ok (a, b)) m = core.framed db b m
  widened db (err e) m = tt

  widen : {A : Type 0} {s : Stmt A} → Steps frame s → Steps E s
  widen {s = s} h = record { step = λ now db. widened db (s now db) (h.step now db) }

  pub laws : Laws E actor
  laws = record {
    session_create = core.session_create;
    session_status = core.session_status;
    session_fields = core.session_fields;
    session_resume = core.session_resume;
    audit_append = core.audit_append;
    chunk_insert = λ n. widen (chunk_insert n);
    chunk_key = λ k id p seq. widen (chunk_key k id p seq);
    chunk_session = λ id. widen (chunk_session id);
    chunk_stream = λ id p. widen (chunk_stream id p);
    row_insert = λ t r. widen (row_insert t r);
    row_update = λ rt id u etag author. widen (row_update rt id u etag author);
    row_delete = λ rt id. widen (row_delete rt id);
    row_session = λ rt id. widen (row_session rt id);
    row_stream = λ id p. widen (row_stream id p);
    mute_create = λ i id p m. widen (mute_create i id p m);
    mute_delete = λ id p i. widen (mute_delete id p i);
    mute_session = λ id. widen (mute_session id);
    mute_stream = λ id p. widen (mute_stream id p);
    session_metadata = λ id. widen (session_metadata id);
    session_participants = λ id. widen (session_participants id);
    metadata_upsert = λ id j etag. widen (metadata_upsert id j etag);
    participant_seed = λ p. widen (participant_seed p);
    participant_upsert = λ i id a. widen (participant_upsert i id a);
    participant_consent = λ id c. widen (participant_consent id c);
    participant_license = λ id l. widen (participant_license id l);
    participant_wiped = λ id p. widen (participant_wiped id p);
    user_upsert = λ u. widen (user_upsert u);
    user_admin = λ p b. widen (user_admin p b);
    alias_upsert = λ p d. widen (alias_upsert p d);
    token_create = λ t s r p. widen (token_create t s r p);
    service_insert = λ i name hash. widen (service_insert i name hash);
    service_touch = λ hash. widen (service_touch hash);
    service_reap = λ window. widen (service_reap window);
  }
