-- ===== src/History/Laws.antt =====
-- The statements that write, and what it takes for a relation to be kept by each of them: the
-- interface between the tables and the handlers.
use ovp_data_api.Base.{ℕ, Text, Uuid, Bool, Json, Option, ◌≡◌, ok, err}
use ovp_data_api.Ids.{PseudoId, ETag}
use ovp_data_api.State.{SessionStatus}
use ovp_data_api.History.Evolve.{Evolution, Steps}
use ovp_data_api.Db.{Stmt, StoredRow}
use ovp_data_api.Db.AuditLog
use ovp_data_api.Db.Chunks
use ovp_data_api.Db.ConsentTokens
use ovp_data_api.Db.DisplayNames
use ovp_data_api.Db.Metadata
use ovp_data_api.Db.MuteRanges
use ovp_data_api.Db.Participants
use ovp_data_api.Db.ServiceSessions
use ovp_data_api.Db.Sessions
use ovp_data_api.Db.Uniform
use ovp_data_api.Db.Uniform.{ResourceTable, Table}
use ovp_data_api.Db.Users
use ovp_data_api.Routes.Sessions.{delete_metadata, delete_participants}

-- The seeding of a user as a statement.
abbrev pub seeded : PseudoId → Stmt (Unit {0})
seeded p now db = elim (Participants.seed_user p now db) [ err e ↦ err e | ok new ↦ ok (tt, new) ]

-- `actor` is the service that the audit rows may name.
pub record Laws (E : Evolution) (actor : Text) : Type 0 where
  pub session_create : (i : Sessions.CreateSession) → Steps E (Sessions.create i)
  pub session_status :
      (id : Uuid) (status : SessionStatus) → Steps E (Sessions.update_status id status)
  pub session_fields : (id : Uuid) (e : _) (n : _) → Steps E (Sessions.patch_fields id e n)
  pub session_resume : (id : Uuid) → Steps E (Sessions.resume_from_abandoned id)
  pub session_metadata : (id : Uuid) → Steps E (delete_metadata id)
  pub session_participants : (id : Uuid) → Steps E (delete_participants id)
  pub chunk_insert : (n : Chunks.NewChunk) → Steps E (Chunks.insert n)
  pub chunk_key :
      (k : Text) (id : Uuid) (p : PseudoId) (seq : _) → Steps E (Chunks.set_s3_key k id p seq)
  pub chunk_session : (id : Uuid) → Steps E (Chunks.delete_for_session id)
  pub chunk_stream : (id : Uuid) (p : PseudoId) → Steps E (Chunks.delete_for_participant id p)
  pub row_insert : (t : Table) (r : StoredRow) → Steps E (Uniform.insert_stored t r)
  pub row_update :
      (rt : ResourceTable) (id : Uuid) (u : _) (etag : ETag) (author : Option PseudoId)
      → Steps E (Uniform.update_stored rt id u etag author)
  pub row_delete : (rt : ResourceTable) (id : Uuid) → Steps E (Uniform.delete_stored rt id)
  pub row_session :
      (rt : ResourceTable) (id : Uuid) → Steps E (Uniform.delete_all_for_session rt id)
  pub row_stream :
      (id : Uuid) (p : PseudoId) → Steps E (Uniform.delete_for_participant_segments id p)
  pub mute_create :
      (i id : Uuid) (p : PseudoId) (m : MuteRanges.CreateMuteRange)
      → Steps E (MuteRanges.create i id p m)
  pub mute_delete : (id : Uuid) (p : PseudoId) (i : Uuid) → Steps E (MuteRanges.delete_one id p i)
  pub mute_session : (id : Uuid) → Steps E (MuteRanges.delete_for_session id)
  pub mute_stream : (id : Uuid) (p : PseudoId) → Steps E (MuteRanges.delete_for_participant id p)
  pub metadata_upsert : (id : Uuid) (j : Json) (etag : ETag) → Steps E (Metadata.upsert id j etag)
  pub participant_seed : (p : PseudoId) → Steps E (seeded p)
  pub participant_upsert :
      (i id : Uuid) (a : Participants.AddParticipant) → Steps E (Participants.upsert i id a)
  pub participant_consent :
      (id : Uuid) (c : Participants.UpdateConsent) → Steps E (Participants.update_consent id c)
  pub participant_license :
      (id : Uuid) (l : Participants.UpdateLicense) → Steps E (Participants.update_license id l)
  pub participant_wiped : (id : Uuid) (p : PseudoId) → Steps E (Participants.mark_wiped id p)
  pub user_upsert : (u : Users.UpsertUser) → Steps E (Users.upsert u)
  pub user_admin : (p : PseudoId) (b : Bool) → Steps E (Users.set_admin p b)
  pub alias_upsert :
      (p : PseudoId) (d : DisplayNames.UpsertDisplayName) → Steps E (DisplayNames.upsert p d)
  pub token_create : (t s r : Uuid) (p : PseudoId) → Steps E (ConsentTokens.create t s r p)
  pub service_insert : (i : Uuid) (name hash : Text) → Steps E (ServiceSessions.insert i name hash)
  pub service_touch : (hash : Text) → Steps E (ServiceSessions.touch hash)
  pub service_reap : (window : ℕ) → Steps E (ServiceSessions.reap_stale window)
  pub audit_append :
      (id : Uuid) (e : AuditLog.Entry) → e.actor_service ≡ actor → Steps E (AuditLog.append id e)
