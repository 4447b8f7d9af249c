-- ===== src/Routes/Consent.antt =====
-- src/routes/consent.rs: what the holder of a consent token may do, and the making of tokens.
pub mod Wipe
use ovp_data_api.Base.{
  pos, ◌||◌, Text, text, Uuid, DateTime, Bool, is_some, Option, none, some, List, length, Json,
  null, bool, num, obj, end, member, if◌then◌else◌,
}
use ovp_data_api.Error.{database, not_found}
use ovp_data_api.Ids.{PseudoId}
use ovp_data_api.Events.{audio_deleted}
use ovp_data_api.App.{
  AppState, Handler, pure, fail, exec, transaction, new_uuid, utc_now, send, audit, ◌>>=◌, ◌>>◌,
}
use ovp_data_api.Db.{Participant}
use ovp_data_api.Db.Chunks
use ovp_data_api.Db.Uniform
use ovp_data_api.Db.MuteRanges
use ovp_data_api.Db.Participants
use ovp_data_api.Db.ConsentTokens
use ovp_data_api.Db.ConsentTokens.{ConsentTokenWithContext}
use ovp_data_api.Routes.Guild.{guild_id_or}
use ovp_data_api.Routes.Mute.{audio_entry}
use ovp_data_api.Routes.Sessions.{sweep, str_or_null}

pub record CreateTokenRequest : Type 0 where
  pub session_id : Uuid
  pub participant_id : Uuid
  pub pseudo_id : PseudoId

pub record CreateTokenResponse : Type 0 where
  pub token : Uuid
  pub expires_at : DateTime

pub record PatchConsent : Type 0 where
  pub consent_scope : Option Text
  pub no_llm_training : Option Bool
  pub no_public_release : Option Bool

abbrev pub consent_token : Text
consent_token = text "consent_token"

abbrev pub bool_or_null : Option Bool → Json
bool_or_null none = null
bool_or_null (some b) = bool b

module _ {St : Type 0} (state : AppState St) where
  open state use {uuid_to_string}

  unfoldable pub create_token : Text → CreateTokenRequest → Handler St CreateTokenResponse
  create_token service input = do
    token ← new_uuid
    ct ← exec (ConsentTokens.create token input.session_id input.participant_id input.pseudo_id)
    audit (record {
      actor_service = service;
      actor_pseudo = some input.pseudo_id.as_str;
      session_id = some input.session_id;
      resource_type = consent_token;
      resource_id = uuid_to_string ct.token;
      action = text "created";
      detail = none;
    })
    pure (record { token = ct.token; expires_at = ct.expires_at })

  -- .ok_or_else(|| AppError::NotFound(…))
  abbrev pub found : Option ConsentTokenWithContext → Handler St ConsentTokenWithContext
  found none = fail not_found
  found (some ctx) = pure ctx

  unfoldable pub get_consent : Uuid → Handler St ConsentTokenWithContext
  get_consent token = do validated ← exec (ConsentTokens.validate token); found validated

  unfoldable pub patch_scope : Participant → Option Text → Handler St Participant
  patch_scope participant none = pure participant
  patch_scope participant (some scope) = exec (
      Participants.update_consent participant.id
        (record { consent_scope = scope; consented_at = none }))

  unfoldable pub patch_flags : Participant → Uuid → PatchConsent → Handler St Participant
  patch_flags updated participant_id input =
      if is_some input.no_llm_training || is_some input.no_public_release
      then exec (
          Participants.update_license participant_id (record {
            no_llm_training = input.no_llm_training;
            no_public_release = input.no_public_release;
          }))
      else pure updated

  unfoldable pub patch_consent : Uuid → PatchConsent → Handler St Participant
  unfolding patch_scope patch_flags
  patch_consent token input = do
    validated ← exec (ConsentTokens.validate token)
    ctx ← found validated
    scoped ← patch_scope ctx.participant input.consent_scope
    updated ← patch_flags scoped ctx.participant.id input
    audit (record {
      actor_service = consent_token;
      actor_pseudo = some updated.pseudo_id.as_str;
      session_id = some ctx.session.id;
      resource_type = text "participant";
      resource_id = uuid_to_string ctx.participant.id;
      action = text "consent_patched_via_token";
      detail = some (
          obj (
            member (text "consent_scope") (str_or_null input.consent_scope) (
              member (text "no_llm_training") (bool_or_null input.no_llm_training)
                (member (text "no_public_release") (bool_or_null input.no_public_release) end))));
    })
    pure updated

  unfoldable pub delete_tx : Uuid → PseudoId → Handler St (List Text)
  delete_tx session_id pid = do
    keys ← exec (Chunks.delete_for_participant session_id pid)
    segs ← exec (Uniform.delete_for_participant_segments session_id pid)
    mutes ← exec (MuteRanges.delete_for_participant session_id pid)
    audit (
        audio_entry state consent_token (text "wiped_via_token") pid session_id
          (obj (member (text "chunk_count") (num (pos (length keys))) end)))
    pure keys

  unfoldable pub delete_audio : Uuid → Handler St (Unit {0})
  unfolding delete_tx
  delete_audio token = do
    validated ← exec (ConsentTokens.validate token)
    ctx ← found validated
    keys ← transaction (delete_tx ctx.session.id ctx.participant.pseudo_id)
    exec (Participants.mark_wiped ctx.session.id ctx.participant.pseudo_id)
    sweep state keys
    guild_id ← exec (guild_id_or database ctx.session.id)
    now ← utc_now
    send (
        audio_deleted now (record {
          session_id = ctx.session.id;
          guild_id = guild_id;
          pseudo_id = ctx.participant.pseudo_id;
        }))
