-- ===== src/Config.antt =====
-- src/config.rs: the configuration, from the variables of the environment. Durations are in seconds.
pub mod Bounds
use ovp_data_api.Base.{
  ℕ, ◌+◌, ◌-◌, ◌*◌, ◌^◌, ◌==◌, leb, Text, text, Option, none, some, List, [], ◌∷◌, Result, ok, err,
  if◌then◌else◌,
}
use ovp_data_api.Routes.Chunks.Headers.{some_digits}

-- env::var; `none` stands for a variable that is missing or not UTF-8.
abbrev pub Env : Type 0
Env = Text → Option Text

pub data ConfigError : Type 0 where
  missing invalid : Text → ConfigError

pub record Config : Type 0 where
  pub database_url : Text
  pub s3_endpoint : Text
  pub s3_access_key : Text
  pub s3_secret_key : Text
  pub s3_bucket : Text
  pub shared_secret : Text
  pub bind_addr : Text
  pub resume_ttl : ℕ
  pub heartbeat_reap : ℕ
  pub ws_queue_depth : ℕ

infixl 5 ◌>>=◌
abbrev pub ◌>>=◌ :
    {A B : Type 0} → Result ConfigError A → (A → Result ConfigError B) → Result ConfigError B
ok a >>= f = f a
err e >>= f = err e

abbrev in_u64 : Option ℕ → Option ℕ
in_u64 none = none
in_u64 (some n) = if leb n (2 ^ 64 - 1) then some n else none

-- str::parse::<u64>, which takes a leading `+`
unfoldable pub parse_number : Text → Option ℕ
parse_number [] = none
parse_number (b ∷ s) = in_u64 (if b == b'+' then some_digits s else some_digits (b ∷ s))

unfoldable pub require : Env → Text → Result ConfigError Text
require env var = elim (env var) [ none ↦ err (missing var) | some v ↦ ok v ]

abbrev or_invalid : Text → Option ℕ → Result ConfigError ℕ
or_invalid var none = err (invalid var)
or_invalid var (some n) = ok n

unfoldable pub parse_u64 : Env → Text → ℕ → Result ConfigError ℕ
unfolding parse_number
parse_u64 env var default = elim (env var) [
  | none ↦ ok default
  | some raw ↦ or_invalid var (parse_number raw)
]

abbrev or_default : Text → Option Text → Text
or_default d none = d
or_default d (some v) = v

unfoldable pub from_env : Env → Result ConfigError Config
unfolding require parse_u64
from_env env = do
  database_url ← require env (text "DATABASE_URL")
  s3_endpoint ← require env (text "S3_ENDPOINT")
  s3_access_key ← require env (text "S3_ACCESS_KEY")
  s3_secret_key ← require env (text "S3_SECRET_KEY")
  s3_bucket ← require env (text "S3_BUCKET")
  shared_secret ← require env (text "SHARED_SECRET")
  resume_ttl ← parse_u64 env (text "RESUME_TTL_SECS") 86_400
  heartbeat_reap ← parse_u64 env (text "HEARTBEAT_REAP_SECS") 90
  ws_queue_depth ← parse_u64 env (text "WS_QUEUE_DEPTH") 64
  ok (record {
    database_url = database_url;
    s3_endpoint = s3_endpoint;
    s3_access_key = s3_access_key;
    s3_secret_key = s3_secret_key;
    s3_bucket = s3_bucket;
    shared_secret = shared_secret;
    bind_addr = or_default (text "0.0.0.0:8001") (env (text "BIND_ADDR"));
    resume_ttl = resume_ttl;
    heartbeat_reap = heartbeat_reap;
    ws_queue_depth = ws_queue_depth;
  })
