-- ===== src/Ws/Upgrade.antt =====
-- src/routes/ws/mod.rs: who may open a socket.
use ovp_data_api.Base.{Text, text, Option, none, some, err}
use ovp_data_api.Error.{unauthorized}
use ovp_data_api.App.{AppState, Handler, exec}
use ovp_data_api.Auth.{TokenLib, hash_token, strip_prefix, header_str, named}
use ovp_data_api.Db.ServiceSessions
use ovp_data_api.Routes.Chunks.Headers.{HeaderMap, RequestLib}

abbrev stripped : Option Text → Option Text
stripped none = none
stripped (some header) = strip_prefix (text "Bearer ") header

abbrev or_else : Option Text → Option Text → Option Text
or_else none o = o
or_else (some t) o = some t

-- The token of the header `authorization`, else that of the query.
unfoldable pub bearer : RequestLib → HeaderMap → Option Text → Option Text
bearer lib headers query_token =
    or_else (stripped (header_str lib (headers (text "authorization")))) query_token

module _ {St : Type 0} (state : AppState St) (lib : RequestLib) (tokens : TokenLib) where
  -- The name under which the session of the socket runs.
  unfoldable pub upgrade : HeaderMap → Option Text → Handler St Text
  unfolding bearer hash_token
  upgrade headers query_token w = elim (bearer lib headers query_token) [
    | none ↦ (err unauthorized, w)
    | some token ↦
        named state lib tokens
          (exec (ServiceSessions.lookup_alive (hash_token tokens token) state.heartbeat_reap) w)
  ]
