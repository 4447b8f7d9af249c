-- ===== src/Tests/Valid.antt =====
-- The constraints over the short history of Tests/History, which starts from a valid database.
use ovp_data_api.Base.{
  unwrap_or, negsuc, ℕ, pos, some, text, select, order_by, any, false, none, List, [], ◌∷◌, ok, err,
  ◌≡◌, ◌⊎◌, refl,
}
use ovp_data_api.Error.{not_found, database}
use ovp_data_api.Ids.{is_valid_pseudo_id, is_lower_hex, is_mixed}
use ovp_data_api.State.{uploaded}
use ovp_data_api.Db.ConsentTokens.{ConsentTokenWithContext, is_open}
use ovp_data_api.Db.{Db, AuditRow, ChunkRow}
use ovp_data_api.Db.AuditLog
use ovp_data_api.Db.AuditLog.{QueryFilter}
use ovp_data_api.Db.AuditLog.Newest.{IsNewest, query-IsNewest}
use ovp_data_api.Db.Chunks
use ovp_data_api.Db.Chunks.Listing.{IsStream}
use ovp_data_api.History.Valid.Streams.{list_ascends}
use ovp_data_api.History.{Step, wait, run}
use ovp_data_api.History.Valid.{IsValid}
use ovp_data_api.History.Valid.Runs.{run-IsValid}
use ovp_data_api.History.Valid.Pages.{get_consent_answers}
use ovp_data_api.Routes.Consent.{get_consent}
use ovp_data_api.Tests.History.{steps}
use ovp_data_api.Tests.World.{state, lib, tokens, world, pseudo}
use ovp_data_api.Tests.Auth.{token, participant}
use ovp_data_api.App.{World}
use ovp_data_api.Storage.Mem.{MemStore}

abbrev start : World MemStore
start =
    let w = world uploaded in
    record w {
      db = record w.db {
        users =
            record { pseudo_id = pseudo; is_admin = false; data_wiped_at = none; created_at = 1 }
            ∷ [];
        participants = participant ∷ [];
        consent_tokens = token ∷ [];
      };
    }

started : IsValid start.db
unfolding is_valid_pseudo_id is_lower_hex is_mixed ovp_data_api.Base.text_eq
    ovp_data_api.Ids.pseudo_eq
started = record {
  users = (refl, tt);
  user_pseudonyms = (refl, tt);
  display_names = tt;
  alias_users = tt;
  alias_sources = tt;
  sessions = (refl, tt);
  participant_ids = (refl, tt);
  participants = (refl, tt);
  participant_sessions = (refl, tt);
  participant_users = (refl, tt);
  participant_pseudonyms = (refl, tt);
  participant_scopes = (tt, tt);
  metadata = tt;
  metadata_sessions = tt;
  chunk_numbers = (refl, tt);
  chunk_clients = (refl, tt);
  chunk_sessions = (refl, tt);
  chunk_pseudonyms = (refl, tt);
  segments = record { ids = tt; clients = tt; refers = tt; authors = tt };
  beats = record { ids = tt; clients = tt; refers = tt; authors = tt };
  scenes = record { ids = tt; clients = tt; refers = tt; authors = tt };
  mute_ids = (refl, tt);
  mute_sessions = (refl, tt);
  mute_pseudonyms = (refl, tt);
  service_ids = tt;
  service_hashes = tt;
  tokens = (refl, tt);
  token_sessions = (refl, tt);
  token_participants = (refl, tt);
  token_users = (refl, tt);
  audit_ids = tt;
}

run-IsValid_example : IsValid (run state lib tokens steps start).db
run-IsValid_example = run-IsValid state lib tokens steps start started

abbrev visit : List Step
visit = wait 500_000 3 ∷ []

get_consent_answers_example :
    let w = run state lib tokens visit start in
    ((ctx : ConsentTokenWithContext) × (get_consent state 77 w ≡ (ok ctx, w)))
    ⊎ ((get_consent state 77 w ≡ (err not_found, w))
        × (any (is_open 77 w.now) w.db.consent_tokens ≡ false))
get_consent_answers_example = get_consent_answers state lib tokens visit 77 start started

list_ascends_example :
    let w = run state lib tokens steps start in
    (rows : List ChunkRow) × (Chunks.list 7 pseudo w.now w.db ≡ ok (rows, w.db))
    × IsStream 7 pseudo w.db rows
list_ascends_example = list_ascends state lib tokens steps 7 pseudo start started

abbrev row : ℕ → AuditRow
row at = AuditLog.row_of at at (record {
  actor_service = text "bot";
  actor_pseudo = none;
  session_id = some 7;
  resource_type = text "session";
  resource_id = text "7";
  action = text "created";
  detail = none;
})

abbrev logged : Db
logged = record start.db { audit_log = row 1 ∷ row 3 ∷ row 2 ∷ [] }

abbrev newest_two : QueryFilter
newest_two = record {
  session_id = some 7;
  resource_type = none;
  since = none;
  limit = some (pos 2);
}

query-IsNewest_example :
    ((n : ℕ) × (rows : List AuditRow) × (unwrap_or newest_two.limit (pos 200) ≡ pos n)
      × (AuditLog.query newest_two 5 logged ≡ ok (rows, logged))
      × IsNewest newest_two n logged rows)
    ⊎ ((n : ℕ) × (unwrap_or newest_two.limit (pos 200) ≡ negsuc n)
        × (AuditLog.query newest_two 5 logged ≡ err database))
query-IsNewest_example = query-IsNewest newest_two 5 logged
