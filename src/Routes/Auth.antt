-- ===== src/Routes/Auth.antt =====
-- src/routes/auth.rs, src/routes/admin.rs and src/routes/audit.rs.
use ovp_data_api.Base.{
  Text, text, text_eq, Bool, true, not, none, some, List, Json, bool, str, obj, end, member,
  if◌then◌else◌,
}
use ovp_data_api.Error.{unauthorized}
use ovp_data_api.Ids.{PseudoId}
use ovp_data_api.App.{
  AppState, Handler, pure, fail, lift, exec, transaction, new_uuid, audit, ◌>>=◌, ◌>>◌,
}
use ovp_data_api.Auth.{TokenLib, generate_token, hash_token, extract_bearer}
use ovp_data_api.Db.{User, AuditRow}
use ovp_data_api.Db.AuditLog
use ovp_data_api.Db.AuditLog.{QueryFilter}
use ovp_data_api.Db.ServiceSessions
use ovp_data_api.Db.Users
use ovp_data_api.Routes.Chunks.Headers.{HeaderMap, RequestLib}

pub record AuthRequest : Type 0 where
  pub shared_secret : Text
  pub service_name : Text

pub record AuthResponse : Type 0 where
  pub session_token : Text

pub record GrantRequest : Type 0 where
  pub shared_secret : Text
  pub pseudo_id : PseudoId
  pub is_admin : Bool

-- The default of `is_admin` in a GrantRequest.
unfoldable pub default_true : Bool
default_true = true

abbrev pub admin_bootstrap : Text
admin_bootstrap = text "admin_bootstrap"

module _ {St : Type 0} (state : AppState St) where
  abbrev pub require_secret : Text → Handler St (Unit {0})
  require_secret s = if not (text_eq s state.shared_secret) then fail unauthorized else pure tt

  unfoldable pub grant_tx : GrantRequest → Handler St User
  grant_tx req = do
    user ← exec (Users.set_admin req.pseudo_id req.is_admin)
    audit (record {
      actor_service = admin_bootstrap;
      actor_pseudo = some req.pseudo_id.as_str;
      session_id = none;
      resource_type = text "admin";
      resource_id = req.pseudo_id.as_str;
      action = if req.is_admin then text "granted" else text "revoked";
      detail = none;
    })
    pure user

  unfoldable pub grant : GrantRequest → Handler St Json
  unfolding grant_tx
  grant req = do
    require_secret req.shared_secret
    user ← transaction (grant_tx req)
    pure (
        obj (
          member (text "ok") (bool true) (
            member (text "pseudo_id") (str user.pseudo_id.as_str)
              (member (text "is_admin") (bool user.is_admin) end))))

  unfoldable pub query : QueryFilter → Handler St (List AuditRow)
  query filter = exec (AuditLog.query filter)

  module _ (lib : RequestLib) (tokens : TokenLib) where
    unfoldable pub authenticate : AuthRequest → Handler St AuthResponse
    unfolding generate_token hash_token
    authenticate req = do
      require_secret req.shared_secret
      token ← generate_token tokens
      id ← new_uuid
      inserted ← exec (ServiceSessions.insert id req.service_name (hash_token tokens token))
      pure (record { session_token = token })

    abbrev pub require_touched : Bool → Handler St (Unit {0})
    require_touched touched = if not touched then fail unauthorized else pure tt

    unfoldable pub heartbeat : HeaderMap → Handler St Json
    unfolding extract_bearer hash_token
    heartbeat headers = do
      token ← lift (extract_bearer lib headers)
      touched ← exec (ServiceSessions.touch (hash_token tokens token))
      require_touched touched
      pure (obj (member (text "ok") (bool true) end))
