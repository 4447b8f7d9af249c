-- ===== src/Tests/World.antt =====
-- A small state of the service for the runs: one session, a store in memory, and the libraries'
-- parts as simple functions.
use ovp_data_api.Base.{
  ◌+◌, Text, text, text_eq, pos, none, some, [], ◌∷◌, leb, length, num, if◌then◌else◌,
}
use ovp_data_api.Ids.{PseudoId}
use ovp_data_api.State.{SessionStatus}
use ovp_data_api.Storage.Mem.{MemStore, mem_store, new}
use ovp_data_api.Metrics
use ovp_data_api.App.{AppState, World}
use ovp_data_api.Auth.{TokenLib}
use ovp_data_api.Db.{Db, Session, ChunkRow, MuteRange}
use ovp_data_api.Routes.Chunks.Headers.{HeaderMap, RequestLib}

abbrev pub state : AppState MemStore
state = record {
  store = mem_store;
  shared_secret = text "secret";
  resume_ttl = 600;
  ws_queue_depth = 64;
  heartbeat_reap = 60;
  uuid_to_string = λ id. id ∷ [];
  datetime_to_json = λ t. num (pos t);
}

abbrev pub lib : RequestLib
lib = record {
  to_str = λ s. some s;
  parse_rfc3339 = λ s. some 5;
  to_bytes = λ body limit. if leb (length body) limit then some body else none;
}

abbrev pub tokens : TokenLib
tokens = record { fill_bytes = λ n. n ∷ []; sha256 = λ bytes. bytes; hex_encode = λ bytes. bytes }

abbrev pub raw_pseudo : Text
raw_pseudo = text "0123456789abcdef01234567"

abbrev pub pseudo : PseudoId
pseudo = record { as_str = raw_pseudo }

abbrev pub headers : HeaderMap
headers k =
    if text_eq k (text "x-capture-started-at")
    then some (text "t")
    else if text_eq k (text "x-duration-ms")
    then some (text "100")
    else if text_eq k (text "x-client-chunk-id")
    then some (text "c1")
    else none

abbrev pub session : SessionStatus → Session
session status = record {
  id = 7;
  guild_id = pos 3;
  started_at = 1_000_000;
  ended_at = none;
  abandoned_at = some 2_000_000;
  deleted_at = none;
  game_system = none;
  campaign_name = none;
  participant_count = none;
  s3_prefix = text "s";
  status = status;
  created_at = 1_000_000;
}

abbrev pub chunk : ChunkRow
chunk = record {
  session_id = 7;
  pseudo_id = pseudo;
  seq = 0;
  s3_key = text "k";
  size_bytes = 1;
  capture_started_at = 5;
  duration_ms = 100;
  client_chunk_id = text "c0";
  created_at = 5;
}

abbrev pub mute : MuteRange
mute = record {
  id = 9;
  session_id = 7;
  pseudo_id = pseudo;
  start_offset_ms = pos 0;
  end_offset_ms = pos 10;
  reason = none;
  created_at = 5;
}

abbrev pub db : SessionStatus → Db
db status = record {
  users = [];
  display_names = [];
  sessions = session status ∷ [];
  participants = [];
  metadata = [];
  chunks = chunk ∷ [];
  segments = [];
  beats = [];
  scenes = [];
  mute_ranges = mute ∷ [];
  audit_log = [];
  service_sessions = [];
  consent_tokens = [];
}

-- One second after the session was abandoned.
abbrev pub world : SessionStatus → World MemStore
world status = record {
  db = db status;
  objects = new;
  events = [];
  metrics = Metrics.new;
  now = 3_000_000;
  elapsed = 10;
  uuids = λ n. 100 + n;
  etags = λ n. record { as_str = n ∷ [] };
  drawn = 0;
}
