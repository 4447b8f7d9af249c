-- ===== src/Start.antt =====
-- src/main.rs and src/db/pool.rs: how the service starts.
pub mod Running
use ovp_data_api.Base.{
  ℕ, Text, Uuid, DateTime, Json, Bool, Option, none, some, [], Result, ok, err, if◌then◌else◌,
}
use ovp_data_api.Config.{Env, Config, ConfigError, from_env}
use ovp_data_api.Ids.{ETag}
use ovp_data_api.Metrics
use ovp_data_api.Storage.{ObjectStore}
use ovp_data_api.App.{AppState, World}
use ovp_data_api.Db.{Db}

-- Box<dyn Error>, by the step that fails.
pub data StartError : Type 0 where
  config : ConfigError → StartError
  connection migration bind : StartError

-- What the start takes of the libraries and the machine: the database behind a URL where the pool
-- connects to it, the migrator, the S3 client, the listener, the printing and the clock, and the
-- ids and tags that will be drawn.
pub record Platform (St : Type 0) : Type 0 where
  pub connects : Text → Option Db
  pub migrates : Db → Option Db
  pub new_store : Config → ObjectStore St
  pub bucket : Config → St
  pub binds : Text → Bool
  pub uuid_to_string : Uuid → Text
  pub datetime_to_json : DateTime → Json
  pub now : DateTime
  pub elapsed : ℕ
  pub uuids : ℕ → Uuid
  pub etags : ℕ → ETag

-- The service that runs: the state of its router, the window of its reaper, and its world.
pub record Service (St : Type 0) : Type 0 where
  pub state : AppState St
  pub reaper : ℕ
  pub world : World St

infixl 5 ◌>>=◌
abbrev pub ◌>>=◌ :
    {A B : Type 0} → Result StartError A → (A → Result StartError B) → Result StartError B
ok a >>= f = f a
err e >>= f = err e

abbrev pub or_else : {A : Type 0} → StartError → Option A → Result StartError A
or_else e none = err e
or_else e (some a) = ok a

abbrev pub configured : Result ConfigError Config → Result StartError Config
configured (ok c) = ok c
configured (err e) = err (config e)

module _ {St : Type 0} (platform : Platform St) where
  open platform use {
    connects, migrates, new_store, bucket, binds, uuid_to_string, datetime_to_json, now, elapsed,
    uuids, etags,
  }

  unfoldable pub connect : Text → Result StartError Db
  connect database_url = or_else connection (connects database_url)

  unfoldable pub run_migrations : Db → Result StartError Db
  run_migrations db = or_else migration (migrates db)

  -- The reaper is spawned with the window that the state takes too; the bus and the metrics are new.
  unfoldable pub assemble : Config → Db → Service St
  assemble c db = record {
    state = record {
      store = new_store c;
      shared_secret = c.shared_secret;
      resume_ttl = c.resume_ttl;
      ws_queue_depth = c.ws_queue_depth;
      heartbeat_reap = c.heartbeat_reap;
      uuid_to_string = uuid_to_string;
      datetime_to_json = datetime_to_json;
    };
    reaper = c.heartbeat_reap;
    world = record {
      db = db;
      objects = bucket c;
      events = [];
      metrics = Metrics.new;
      now = now;
      elapsed = elapsed;
      uuids = uuids;
      etags = etags;
      drawn = 0;
    };
  }

  -- TcpListener::bind and axum::serve
  abbrev pub listening : Config → Service St → Result StartError (Service St)
  listening c s = if binds c.bind_addr then ok s else err bind

  unfoldable pub main : Env → Result StartError (Service St)
  unfolding connect run_migrations assemble
  main env = do
    c ← configured (from_env env)
    pool ← connect c.database_url
    db ← run_migrations pool
    listening c (assemble c db)
