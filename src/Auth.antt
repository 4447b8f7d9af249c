-- ===== src/Auth.antt =====
-- src/auth/: the tokens of services, the middleware that checks them and the reaper of stale ones.
-- SHA-256, the printing of bytes in hexadecimal and the random bytes are the libraries'.
pub mod Guard
pub mod Tokens
use ovp_data_api.Base.{
  ℕ, ◌+◌, ◌*◌, ◌/◌, ◌==◌, ltb, Text, text, Option, none, some, List, [], ◌∷◌, Result, ok, err,
  if◌then◌else◌,
}
use ovp_data_api.Error.{AppError, unauthorized, internal}
use ovp_data_api.App.{AppState, World, Handler, pure, fail, lift, exec, ◌>>=◌}
use ovp_data_api.Db.ServiceSessions
use ovp_data_api.Routes.Chunks.Headers.{HeaderMap, RequestLib}

-- `fill_bytes` gives 32 bytes of the generator, by the number of the draw.
pub record TokenLib : Type 0 where
  pub fill_bytes : ℕ → List ℕ
  pub sha256 : List ℕ → List ℕ
  pub hex_encode : List ℕ → Text

abbrev pub strip_prefix : Text → Text → Option Text
strip_prefix [] s = some s
strip_prefix (a ∷ p) [] = none
strip_prefix (a ∷ p) (b ∷ s) = let rest = strip_prefix p s in if a == b then rest else none

module _ (tokens : TokenLib) where
  unfoldable pub hash_token : Text → Text
  hash_token token = tokens.hex_encode (tokens.sha256 token)

  unfoldable pub generate_token : {St : Type 0} → Handler St Text
  generate_token w =
      (ok (tokens.hex_encode (tokens.fill_bytes w.drawn)), record w { drawn = w.drawn + 1 })

abbrev or_unauthorized : {A : Type 0} → Option A → Result AppError A
or_unauthorized none = err unauthorized
or_unauthorized (some a) = ok a

-- `and_then` on the value of a header
abbrev pub header_str : RequestLib → Option Text → Option Text
header_str lib none = none
header_str lib (some v) = lib.to_str v

unfoldable pub extract_bearer : RequestLib → HeaderMap → Result AppError Text
extract_bearer lib headers = elim (header_str lib (headers (text "authorization"))) [
  | none ↦ err unauthorized
  | some header ↦ or_unauthorized (strip_prefix (text "Bearer ") header)
]

module _ {St : Type 0} (state : AppState St) (lib : RequestLib) (tokens : TokenLib) where
  open state use {heartbeat_reap}

  -- map_err(…)? and ok_or_else(…)? of the lookup
  abbrev pub named : Result AppError (Option Text) × World St → Result AppError Text × World St
  named (ok none, w) = (err unauthorized, w)
  named (ok (some name), w) = (ok name, w)
  named (err e, w) = (err internal, w)

  unfoldable pub service_name : HeaderMap → Handler St Text
  unfolding extract_bearer hash_token
  service_name headers = do
    token ← lift (extract_bearer lib headers)
    λ w. named (exec (ServiceSessions.lookup_alive (hash_token tokens token) heartbeat_reap) w)

  -- The middleware: `next` runs with the name of the service.
  unfoldable pub require_service_auth :
      {A : Type 0} → HeaderMap → (Text → Handler St A) → Handler St A
  unfolding service_name
  require_service_auth headers next = do name ← service_name headers; next name

-- A tick of the reaper; the count and an error are only logged.
unfoldable pub reap_tick : {St : Type 0} → ℕ → World St → World St
reap_tick window w = (exec (ServiceSessions.reap_stale window) w).1

-- The period of the ticks in milliseconds, for a window in seconds.
unfoldable pub reaper_period : ℕ → ℕ
reaper_period window = let period = window * 1000 / 3 in if ltb period 5000 then 5000 else period
