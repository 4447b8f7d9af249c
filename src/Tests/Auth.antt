-- ===== src/Tests/Auth.antt =====
-- Tests of the authentication, the configuration and the consent pages.
use mathlib.Core.List.{Mem}
use ovp_data_api.Base.{
  ℕ, ◌+◌, ◌*◌, ◌-◌, ◌^◌, ◌<◌, Text, text, text_eq, pos, true, false, Option, none, some, [], ◌∷◌,
  ◌++◌, ok, err, ◌≡◌, refl, if◌then◌else◌, List, select, obj, member, num, end,
}
use ovp_data_api.Error.{unauthorized}
use ovp_data_api.Ids.{is_valid_pseudo_id}
use ovp_data_api.State.{uploaded}
use ovp_data_api.Storage.Mem.{MemStore}
use ovp_data_api.App.{World}
use ovp_data_api.Auth.{service_name}
use ovp_data_api.Auth.Guard.{IsStranger, serve-unauthorized}
use ovp_data_api.Auth.Tokens.{service_name-reaper}
use ovp_data_api.Config.{Env, Config, from_env}
use ovp_data_api.Db.{ConsentToken, Participant, ServiceSession}
use ovp_data_api.Db.AuditLog
use ovp_data_api.Db.ConsentTokens
use ovp_data_api.Db.ConsentTokens.{ConsentTokenWithContext}
use ovp_data_api.Db.ConsentTokens.Open.{get_consent-open}
use ovp_data_api.History.{step, reaper, wait}
use ovp_data_api.Router.{protected, delete_session, serve}
use ovp_data_api.Routes.Auth.{AuthRequest}
use ovp_data_api.Routes.Chunks.Headers.{HeaderMap}
use ovp_data_api.Routes.Consent
use ovp_data_api.Routes.Consent.{get_consent, delete_audio}
use ovp_data_api.Routes.Consent.Wipe.{delete_audio-IsWiped}
use ovp_data_api.Routes.Mute
use ovp_data_api.Routes.Mute.{wipe_participant_audio, wiped_counts}
use ovp_data_api.Routes.Mute.Wipe.{IsWiped, wipe_participant_audio-IsWiped}
use ovp_data_api.Tests.World.{state, lib, tokens, world, session, pseudo, raw_pseudo}

abbrev bearer : HeaderMap
bearer k = if text_eq k (text "authorization") then some (text "Bearer " ++ 0 ∷ []) else none

stranger : IsStranger state lib tokens bearer (world uploaded)
unfolding IsStranger
stranger token e = refl

serve-unauthorized_example :
    serve state lib tokens bearer (protected (delete_session 7)) (world uploaded)
    ≡ (err unauthorized, world uploaded)
serve-unauthorized_example =
    serve-unauthorized state lib tokens bearer (delete_session 7) (world uploaded) stranger

-- Seen half a second and two minutes before the instant of the world.
abbrev service : Text → ℕ → ServiceSession
service hash seen = record {
  id = seen;
  service_name = text "bot";
  token_hash = hash;
  created_at = 0;
  last_seen_at = seen;
}

abbrev with_services : World MemStore
with_services =
    let w = world uploaded in
    record w {
      db = record w.db {
        service_sessions = service (0 ∷ []) 199_500_000 ∷ service (1 ∷ []) 80_000_000 ∷ [];
      };
      now = 200_000_000;
    }

service_name-reaper_example :
    (service_name state lib tokens bearer
      (step state lib tokens (wait 5 1) (step state lib tokens reaper with_services))).0
    ≡ (service_name state lib tokens bearer (step state lib tokens (wait 5 1) with_services)).0
service_name-reaper_example = service_name-reaper state lib tokens bearer 5 1 with_services

abbrev request : AuthRequest
request = record { shared_secret = text "secret"; service_name = text "bot" }

wiped_logs :
    (chunks segments mutes : ℕ)
    → AuditLog.admits 0
        (Mute.audio_entry state
          (text "bot")
          (text "wiped")
          (record { as_str = raw_pseudo })
          7
          (obj (wiped_counts chunks segments mutes)))
        []
      ≡ true
unfolding AuditLog.admits ovp_data_api.Base.holds_nul
wiped_logs chunks segments mutes = refl

valid : is_valid_pseudo_id raw_pseudo ≡ true
unfolding is_valid_pseudo_id ovp_data_api.Ids.is_lower_hex
valid = refl

wipe_participant_audio-IsWiped_example :
    IsWiped 7
      (record { as_str = raw_pseudo })
      (world uploaded).db
      (wipe_participant_audio state (text "bot") 7 raw_pseudo (world uploaded)).1.db
unfolding AuditLog.admits
wipe_participant_audio-IsWiped_example =
    wipe_participant_audio-IsWiped state (text "bot") 7 raw_pseudo (world uploaded) valid wiped_logs

abbrev pub env : Env
env k =
    if text_eq k (text "RESUME_TTL_SECS")
    then some (text "600")
    else if text_eq k (text "HEARTBEAT_REAP_SECS")
    then none
    else if text_eq k (text "WS_QUEUE_DEPTH")
    then some (text "+18446744073709551615")
    else some k

abbrev pub config : Config
config = record {
  database_url = text "DATABASE_URL";
  s3_endpoint = text "S3_ENDPOINT";
  s3_access_key = text "S3_ACCESS_KEY";
  s3_secret_key = text "S3_SECRET_KEY";
  s3_bucket = text "S3_BUCKET";
  shared_secret = text "SHARED_SECRET";
  bind_addr = text "BIND_ADDR";
  resume_ttl = 600;
  heartbeat_reap = 90;
  ws_queue_depth = 2 ^ 64 - 1;
}

pub read : from_env env ≡ ok config
unfolding from_env text_eq ovp_data_api.Routes.Chunks.Headers.parse_digits
read = refl

abbrev pub token : ConsentToken
token = record {
  token = 77;
  session_id = 7;
  participant_id = 8;
  pseudo_id = pseudo;
  created_at = 1;
  expires_at = 4_000_000;
  revoked_at = none;
}

abbrev pub participant : Participant
participant = record {
  id = 8;
  session_id = 7;
  pseudo_id = pseudo;
  consent_scope = none;
  consented_at = none;
  mid_session_join = false;
  no_llm_training = false;
  no_public_release = false;
  data_wiped_at = none;
  created_at = 1;
}

abbrev with_token : World MemStore
with_token =
    let w = world uploaded in
    record w { db = record w.db { participants = participant ∷ []; consent_tokens = token ∷ [] } }

abbrev page : ConsentTokenWithContext
page = record { token = token; session = session uploaded; participant = participant }

opened : get_consent state 77 with_token ≡ (ok page, with_token)
unfolding get_consent ConsentTokens.validate ovp_data_api.Base.first select
opened = refl

get_consent-open_example :
    Mem token with_token.db.consent_tokens
    × (token.token ≡ 77)
    × (token.revoked_at ≡ none)
    × (with_token.now < token.expires_at)
    × Mem (session uploaded) with_token.db.sessions
    × ((session uploaded).id ≡ token.session_id)
    × Mem participant with_token.db.participants
    × (participant.id ≡ token.participant_id)
    × (with_token ≡ with_token)
get_consent-open_example = get_consent-open state 77 with_token with_token page opened

validated : ConsentTokens.validate 77 with_token.now with_token.db ≡ ok (some page, with_token.db)
unfolding ConsentTokens.validate ovp_data_api.Base.first select
validated = refl

consent_logs :
    (chunks : ℕ)
    → AuditLog.admits 0
        (Mute.audio_entry state Consent.consent_token
          (text "wiped_via_token")
          pseudo
          7
          (obj (member (text "chunk_count") (num (pos chunks)) end)))
        []
      ≡ true
unfolding AuditLog.admits ovp_data_api.Base.holds_nul
consent_logs chunks = refl

delete_audio-IsWiped_example :
    IsWiped 7 pseudo with_token.db (delete_audio state 77 with_token).1.db
unfolding AuditLog.admits
delete_audio-IsWiped_example = delete_audio-IsWiped state 77 with_token page validated consent_logs
