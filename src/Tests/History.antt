-- ===== src/Tests/History.antt =====
-- A short history of the service: a session is made, an upload and a deletion follow, with time and
-- a tick of the reaper between them.
use ovp_data_api.Base.{text, text_eq, pos, none, some, List, [], ◌∷◌, ◌++◌, ◌≡◌, if◌then◌else◌}
use ovp_data_api.State.{uploaded}
use ovp_data_api.Db.Sessions.{CreateSession}
use ovp_data_api.History.{Step, request, reaper, wait, run}
use ovp_data_api.History.Log.{Grows, run-Grows, protected_route-Grows}
use ovp_data_api.History.Tombstones.{Kept, run-Kept}
use ovp_data_api.Router.{
  protected, public, authenticate, create_session, delete_session, upload_chunk, protected_route,
}
use ovp_data_api.Routes.Chunks.Headers.{HeaderMap}
use ovp_data_api.Tests.World.{state, lib, tokens, world, headers, raw_pseudo}

abbrev signed : HeaderMap
signed k = if text_eq k (text "authorization") then some (text "Bearer " ++ 0 ∷ []) else headers k

abbrev input : CreateSession
input = record {
  id = 11;
  guild_id = pos 4;
  started_at = 3_000_000;
  game_system = none;
  campaign_name = none;
  s3_prefix = text "t";
}

abbrev pub steps : List Step
steps =
    request signed
      (public (authenticate (record { shared_secret = text "secret"; service_name = text "bot" })))
    ∷ wait 5_000_000 10
    ∷ request signed (protected (create_session input))
    ∷ reaper
    ∷ request signed (protected (upload_chunk 7 raw_pseudo (1 ∷ 2 ∷ [])))
    ∷ request signed (protected (delete_session 7))
    ∷ []

run-Grows_example :
    Grows (λ _. Unit) (world uploaded).db (run state lib tokens steps (world uploaded)).db
run-Grows_example = run-Grows state lib tokens steps (world uploaded)

run-Kept_example :
    Kept (world uploaded).db.sessions (run state lib tokens steps (world uploaded)).db.sessions
run-Kept_example = run-Kept state lib tokens steps (world uploaded)

protected_route-Grows_example :
    Grows
      (λ actor. actor ≡ text "bot")
      (world uploaded).db
      (protected_route state lib tokens signed
        (delete_session 7)
        (text "bot")
        (world uploaded)).1.db
protected_route-Grows_example =
    protected_route-Grows state lib tokens signed (delete_session 7) (text "bot") (world uploaded)
