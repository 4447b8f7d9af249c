-- ===== src/Routes/Participants.antt =====
-- src/routes/participants.rs: the participants of a session, their consent and their licences.
use ovp_data_api.Base.{
  pos, Text, text, Uuid, Option, none, some, List, length, Json, bool, num, obj, end, member,
}
use ovp_data_api.App.{AppState, Handler, pure, exec, audit, ◌>>=◌, ◌>>◌}
use ovp_data_api.Db.{Participant}
use ovp_data_api.Db.AuditLog.{Entry}
use ovp_data_api.Db.Participants
use ovp_data_api.Db.Participants.{AddParticipant, UpdateConsent, UpdateLicense}
use ovp_data_api.Routes.Sessions.{str_or_null}

pub record Batch : Type 0 where
  pub participants : List AddParticipant

module _ {St : Type 0} (state : AppState St) where
  open state use {uuid_to_string}

  abbrev pub participant_entry : Text → Option Text → Uuid → Uuid → Text → Option Json → Entry
  participant_entry service pseudo session_id resource_id action detail = record {
    actor_service = service;
    actor_pseudo = pseudo;
    session_id = some session_id;
    resource_type = text "participant";
    resource_id = uuid_to_string resource_id;
    action = action;
    detail = detail;
  }

  unfoldable pub add_one : Text → Uuid → AddParticipant → Handler St Participant
  add_one service session_id input = do
    row ← Participants.add session_id input
    audit (
        participant_entry service (some row.pseudo_id.as_str) session_id row.id (text "added") none)
    pure row

  unfoldable pub add_batch : Text → Uuid → Batch → Handler St (List Participant)
  add_batch service session_id input = do
    rows ← Participants.add_many session_id input.participants
    audit (
        participant_entry service none session_id session_id (text "batch_added")
          (some (obj (member (text "count") (num (pos (length rows))) end))))
    pure rows

  unfoldable pub list : Uuid → Handler St (List Participant)
  list session_id = exec (Participants.list session_id)

  unfoldable pub fetch : Uuid → Handler St Participant
  fetch id = exec (Participants.get id)

  unfoldable pub patch_consent : Text → Uuid → UpdateConsent → Handler St Participant
  patch_consent service id input = do
    row ← exec (Participants.update_consent id input)
    audit (
        participant_entry service (some row.pseudo_id.as_str) row.session_id id
          (text "consent_patched")
          (some (obj (member (text "consent_scope") (str_or_null row.consent_scope) end))))
    pure row

  unfoldable pub patch_license : Text → Uuid → UpdateLicense → Handler St Participant
  patch_license service id input = do
    row ← exec (Participants.update_license id input)
    audit (
        participant_entry service (some row.pseudo_id.as_str) row.session_id id
          (text "license_patched")
          (some (
            obj (
              member (text "no_llm_training") (bool row.no_llm_training)
                (member (text "no_public_release") (bool row.no_public_release) end)))))
    pure row
