-- ===== src/History/Valid/Runs.antt =====
-- The constraints of the tables over a history.
use ovp_data_api.Base.{
  List, Text, Uuid, ◌==◌, any, true, false, ◌≡◌, arith, Bool-cases, inl, inr, Unique-append,
}
use ovp_data_api.Db.{AuditRow}
use ovp_data_api.App.{AppState, World}
use ovp_data_api.Auth.{TokenLib}
use ovp_data_api.Db.AuditLog
use ovp_data_api.Db.Chunks
use ovp_data_api.Db.MuteRanges
use ovp_data_api.History.{Step, run}
use ovp_data_api.History.Laws.{Laws}
use ovp_data_api.History.Run.{run-rel}
use ovp_data_api.History.Valid.{IsValid, same_log}
use ovp_data_api.History.Valid.Accounts
use ovp_data_api.History.Valid.Audio
use ovp_data_api.History.Valid.People
use ovp_data_api.History.Valid.Tables.{valid, audit_log-IsValid}
use ovp_data_api.Routes.Chunks.Headers.{RequestLib}

admitted :
    (id : Uuid) (e : AuditLog.Entry) (rows : List AuditRow)
    → AuditLog.admits id e rows ≡ true
    → any (λ r. r.id == id) rows ≡ false
unfolding AuditLog.admits
admitted id e rows h = ground arith

valid-Laws : (actor : Text) → Laws valid actor
unfolding Chunks.delete_for_session Chunks.delete_for_participant MuteRanges.delete_for_session
    MuteRanges.delete_for_participant AuditLog.append
valid-Laws actor = record {
  session_create = People.session_create;
  session_status = People.session_status;
  session_fields = People.session_fields;
  session_resume = People.session_resume;
  session_metadata = People.session_metadata;
  session_participants = Accounts.session_participants;
  chunk_insert = Audio.chunk_insert;
  chunk_key = Audio.chunk_key;
  chunk_session = λ id. Audio.chunks_deleted (λ c. c.session_id == id);
  chunk_stream = λ id p. Audio.chunks_deleted (Chunks.of_stream id p);
  row_insert = Audio.row_insert;
  row_update = Audio.row_update;
  row_delete = Audio.row_delete;
  row_session = Audio.row_session;
  row_stream = Audio.row_stream;
  mute_create = Audio.mute_create;
  mute_delete = Audio.mute_delete;
  mute_session = λ id. Audio.mutes_deleted (λ m. m.session_id == id);
  mute_stream = λ id p. Audio.mutes_deleted (MuteRanges.of_stream id p);
  metadata_upsert = People.metadata_upsert;
  participant_seed = Accounts.participant_seed;
  participant_upsert = People.participant_upsert;
  participant_consent = People.participant_consent;
  participant_license = People.participant_license;
  participant_wiped = People.participant_wiped;
  user_upsert = Accounts.user_upsert;
  user_admin = Accounts.user_admin;
  alias_upsert = Accounts.alias_upsert;
  token_create = Accounts.token_create;
  service_insert = Accounts.service_insert;
  service_touch = Accounts.service_touch;
  service_reap = Accounts.service_reap;
  audit_append = λ id e same. record {
    step = λ now db. elim (Bool-cases (AuditLog.admits id e db.audit_log)) [
      | inl k ↦ rw k λ v.
          audit_log-IsValid _ db
            (Unique-append same_log db.audit_log (AuditLog.row_of id now e)
              (admitted id e db.audit_log k) v.audit_ids)
            v
      | inr k ↦ rw k tt
    ];
  };
}

module _ {St : Type 0} (state : AppState St) (lib : RequestLib) (tokens : TokenLib) where
  -- Whatever requests are served, whatever they answer, and however time and the reaper go between
  -- them: a database that meets the keys, the references and the checks of its tables meets them
  -- afterwards. So no two chunks of a stream ever share a number, which an insertion computes and
  -- does not check, or a client's id, and no row of a table that has a reference to the sessions is
  -- left without its session.
  pub run-IsValid :
      (ss : List Step) (w : World St) → IsValid w.db → IsValid (run state lib tokens ss w).db
  run-IsValid ss w = run-rel state lib tokens valid-Laws ss w
