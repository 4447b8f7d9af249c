-- ===== src/Config/Bounds.antt =====
-- src/config.rs: what a configuration that was read holds.
use ovp_data_api.Base.{
  ℕ, ◌^◌, ◌<◌, Text, text, [], ◌∷◌, Option, none, some, Option-cases, inl, inr, ok, ◌≡◌, arith,
  ◌==◌, if◌then◌else◌,
}
use ovp_data_api.Routes.Chunks.Headers.{some_digits}
use ovp_data_api.Config.{
  Env, Config, require, parse_u64, parse_number, from_env, in_u64, or_invalid,
}

in_u64-lt : (o : Option ℕ) (n : ℕ) → in_u64 o ≡ some n → n < 2 ^ 64
in_u64-lt none n h = cc
in_u64-lt (some m) n h = ground arith

parse_number-lt : (s : Text) (n : ℕ) → parse_number s ≡ some n → n < 2 ^ 64
unfolding parse_number
parse_number-lt [] n h = cc
parse_number-lt (b ∷ s) n h =
    in_u64-lt (if b == b'+' then some_digits s else some_digits (b ∷ s)) n h

invalid-or : (var : Text) (o : Option ℕ) (n : ℕ) → or_invalid var o ≡ ok n → o ≡ some n
invalid-or var none n h = cc
invalid-or var (some m) n h = ground arith

-- A number that is read fits 64 bits, where its default does.
parse_u64-lt :
    (env : Env) (var : Text) (d n : ℕ) → d < 2 ^ 64 → parse_u64 env var d ≡ ok n → n < 2 ^ 64
unfolding parse_u64
parse_u64-lt env var d n hd h = elim (Option-cases (env var)) [
  | inl e ↦ ground arith
  | inr (raw, e) ↦ parse_number-lt raw n (invalid-or var (parse_number raw) n (ground arith))
]

require-ok : (env : Env) (var v : Text) → require env var ≡ ok v → env var ≡ some v
unfolding require
require-ok env var v h = elim (Option-cases (env var)) [
  | inl e ↦ ground arith
  | inr (raw, e) ↦ ground arith
]

-- Where the configuration is read, each of the six required variables is set and taken over as it
-- is, and the three numbers fit 64 bits.
pub from_env-ok :
    (env : Env) (c : Config)
    → from_env env ≡ ok c
    → (env (text "DATABASE_URL") ≡ some c.database_url)
      × (env (text "S3_ENDPOINT") ≡ some c.s3_endpoint)
      × (env (text "S3_ACCESS_KEY") ≡ some c.s3_access_key)
      × (env (text "S3_SECRET_KEY") ≡ some c.s3_secret_key)
      × (env (text "S3_BUCKET") ≡ some c.s3_bucket)
      × (env (text "SHARED_SECRET") ≡ some c.shared_secret)
      × (c.resume_ttl < 2 ^ 64)
      × (c.heartbeat_reap < 2 ^ 64)
      × (c.ws_queue_depth < 2 ^ 64)
unfolding from_env require
from_env-ok env c h = ground (
  arith,
  parse_u64-lt env (text "RESUME_TTL_SECS") 86_400,
  parse_u64-lt env (text "HEARTBEAT_REAP_SECS") 90,
  parse_u64-lt env (text "WS_QUEUE_DEPTH") 64,
)
