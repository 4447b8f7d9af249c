-- ===== src/Tests/Start.antt =====
-- A start of the service on an empty database, and a short history of it.
use ovp_data_api.Base.{◌^◌, ◌<◌, text, pos, some, ok, [], ◌∷◌, ◌≡◌, refl, arith, true, num}
use mathlib.Core.Path.{subst}
use ovp_data_api.Db.{Db}
use ovp_data_api.Storage.Mem.{MemStore, mem_store, new}
use ovp_data_api.History.{run}
use ovp_data_api.History.Valid.{IsValid}
use ovp_data_api.Start.{Platform, Service, main, connect, run_migrations, assemble}
use ovp_data_api.Start.Running.{main-IsValid}
use ovp_data_api.Tests.Auth.{env, config, read}
use ovp_data_api.Tests.World.{lib, tokens}
use ovp_data_api.Tests.History.{steps}

abbrev empty : Db
empty = record {
  users = [];
  display_names = [];
  sessions = [];
  participants = [];
  metadata = [];
  chunks = [];
  segments = [];
  beats = [];
  scenes = [];
  mute_ranges = [];
  service_sessions = [];
  audit_log = [];
  consent_tokens = [];
}

empty-IsValid : IsValid empty
empty-IsValid = record {
  users = tt;
  user_pseudonyms = tt;
  display_names = tt;
  alias_users = tt;
  alias_sources = tt;
  sessions = tt;
  participant_ids = tt;
  participants = tt;
  participant_sessions = tt;
  participant_users = tt;
  participant_pseudonyms = tt;
  participant_scopes = tt;
  metadata = tt;
  metadata_sessions = tt;
  chunk_numbers = tt;
  chunk_clients = tt;
  chunk_sessions = tt;
  chunk_pseudonyms = tt;
  segments = record { ids = tt; clients = tt; refers = tt; authors = tt };
  beats = record { ids = tt; clients = tt; refers = tt; authors = tt };
  scenes = record { ids = tt; clients = tt; refers = tt; authors = tt };
  mute_ids = tt;
  mute_sessions = tt;
  mute_pseudonyms = tt;
  service_ids = tt;
  service_hashes = tt;
  tokens = tt;
  token_sessions = tt;
  token_participants = tt;
  token_users = tt;
  audit_ids = tt;
}

-- The migrator makes the tables, which are empty.
abbrev platform : Platform MemStore
platform = record {
  connects = λ url. some empty;
  migrates = λ db. some empty;
  new_store = λ c. mem_store;
  bucket = λ c. new;
  binds = λ addr. true;
  uuid_to_string = λ id. id ∷ [];
  datetime_to_json = λ t. num (pos t);
  now = 7;
  elapsed = 2;
  uuids = λ n. n;
  etags = λ n. record { as_str = n ∷ [] };
}

abbrev started : Service MemStore
unfolding assemble
started = assemble platform config empty

main-started : main platform env ≡ ok started
unfolding main connect run_migrations
main-started = let e = read in rw e refl

main-IsValid_example :
    IsValid (run started.state lib tokens steps started.world).db
    × (env (text "SHARED_SECRET") ≡ some started.state.shared_secret)
    × (started.state.heartbeat_reap < 2 ^ 64)
    × (started.state.resume_ttl < 2 ^ 64)
main-IsValid_example =
    main-IsValid platform env started main-started
      (λ before db e. let same : empty ≡ db = ground arith in subst IsValid same empty-IsValid) lib
      tokens steps
