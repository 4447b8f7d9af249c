-- ===== src/Auth/Guard.antt =====
-- src/auth/middleware.rs: who gets past the middleware.
use ovp_data_api.Base.{
  Text, text, ◌⊎◌, inl, inr, any, any-select, Option-cases, ok, err, ◌≡◌, refl, false, first,
}
use ovp_data_api.Error.{unauthorized}
use ovp_data_api.App.{AppState, World}
use ovp_data_api.Auth.{TokenLib, hash_token, extract_bearer, service_name, header_str, strip_prefix}
use ovp_data_api.Db.ServiceSessions.{is_alive, lookup_alive}
use ovp_data_api.Router.{Protected, protected, serve}
use ovp_data_api.Routes.Chunks.Headers.{HeaderMap, RequestLib}

pub bearer-cases :
    (lib : RequestLib) (headers : HeaderMap)
    → (extract_bearer lib headers ≡ err unauthorized)
      ⊎ ((token : Text) × (extract_bearer lib headers ≡ ok token))
unfolding extract_bearer
bearer-cases lib headers = elim (Option-cases (header_str lib (headers (text "authorization")))) [
  | inl e ↦ inl (rw (extract_bearer, e) refl)
  | inr (header, e) ↦ elim (Option-cases (strip_prefix (text "Bearer ") header)) [
    | inl k ↦ inl (rw (extract_bearer, e, k) refl)
    | inr (token, k) ↦ inr (token, rw (extract_bearer, e, k) refl)
  ]
]

module _ {St : Type 0} (state : AppState St) (lib : RequestLib) (tokens : TokenLib) where
  -- The token that the request carries, if any, is that of no live service session.
  unfoldable pub IsStranger : HeaderMap → World St → Type 0
  IsStranger headers w =
      (token : Text)
      → extract_bearer lib headers ≡ ok token
      → any (is_alive (hash_token tokens token) state.heartbeat_reap w.now) w.db.service_sessions
        ≡ false

  -- A request to a route behind the middleware from a caller without a live token is answered 401,
  -- whatever the route and the body, and changes nothing: not the database, the store, the events
  -- nor the metrics.
  pub serve-unauthorized :
      (headers : HeaderMap) (r : Protected) (w : World St)
      → IsStranger headers w
      → serve state lib tokens headers (protected r) w ≡ (err unauthorized, w)
  unfolding serve IsStranger lookup_alive first
  serve-unauthorized headers r w h = elim (bearer-cases lib headers) [
    | inl e ↦ rw (service_name, e) refl
    | inr (token, e) ↦
        rw (service_name, e, lookup_alive, any-select _ w.db.service_sessions (h token e)) refl
  ]
