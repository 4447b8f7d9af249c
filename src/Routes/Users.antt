-- ===== src/Routes/Users.antt =====
-- src/routes/users.rs: users, their aliases and the admin pages.
use ovp_data_api.Base.{
  pos, ◌++◌, Text, text, Bool, Option, none, some, List, first, Json, bool, num, str, obj, end,
  member, if◌then◌else◌,
}
use ovp_data_api.Ids.{PseudoId}
use ovp_data_api.Ids
use ovp_data_api.App.{Handler, pure, checked, exec, transaction, audit, ◌>>=◌, ◌>>◌}
use ovp_data_api.Db.{User, DisplayName}
use ovp_data_api.Db.AuditLog.{Entry}
use ovp_data_api.Db.Users
use ovp_data_api.Db.Users.{UpsertUser, AdminUserListItem, ParticipatedSession}
use ovp_data_api.Db.DisplayNames
use ovp_data_api.Db.DisplayNames.{UpsertDisplayName}

abbrev pub user_entry : Text → PseudoId → Text → Text → Text → Option Json → Entry
user_entry service pid resource_type resource_id action detail = record {
  actor_service = service;
  actor_pseudo = some pid.as_str;
  session_id = none;
  resource_type = resource_type;
  resource_id = resource_id;
  action = action;
  detail = detail;
}

-- The responses of `fetch_user` and `fetch_admin_user_detail`.
pub record UserResponse : Type 0 where
  pub user : User
  pub latest_display_name : Option Text

pub record UserDetail : Type 0 where
  pub user : User
  pub latest_display_name : Option Text
  pub display_names : List DisplayName
  pub sessions : List ParticipatedSession

abbrev pub latest_name : List DisplayName → Option Text
latest_name aliases = elim (first aliases) [ none ↦ none | some d ↦ some d.display_name ]

pub record PatchUserRequest : Type 0 where
  pub is_admin : Bool

module _ {St : Type 0} where
  unfoldable pub upsert_user : Text → UpsertUser → Handler St User
  upsert_user service input = do
    user ← exec (Users.upsert input)
    audit (
        user_entry service input.pseudo_id (text "user") input.pseudo_id.as_str (text "upserted")
          none)
    pure user

  unfoldable pub fetch_user : Text → Handler St UserResponse
  fetch_user pid_raw = do
    pid ← checked (Ids.new pid_raw)
    user ← exec (Users.get pid)
    aliases ← exec (DisplayNames.list pid)
    pure (record { user = user; latest_display_name = latest_name aliases })

  unfoldable pub post_display : Text → Text → UpsertDisplayName → Handler St DisplayName
  post_display service pid_raw input = do
    pid ← checked (Ids.new pid_raw)
    ensured ← exec (Users.upsert (record { pseudo_id = pid }))
    row ← exec (DisplayNames.upsert pid input)
    audit (
        user_entry service pid (text "display_name") (pid.as_str ++ (text "/" ++ row.display_name))
          (text "seen")
          (some (
            obj (
              member (text "source") (str row.source)
                (member (text "seen_count") (num (pos row.seen_count)) end)))))
    pure row

  unfoldable pub list_display : Text → Handler St (List DisplayName)
  list_display pid_raw = do pid ← checked (Ids.new pid_raw); exec (DisplayNames.list pid)

  unfoldable pub list_admin_users : Handler St (List AdminUserListItem)
  list_admin_users = exec Users.list_all_with_details

  unfoldable pub fetch_admin_user_detail : Text → Handler St UserDetail
  fetch_admin_user_detail pid_raw = do
    pid ← checked (Ids.new pid_raw)
    user ← exec (Users.get pid)
    aliases ← exec (DisplayNames.list pid)
    sessions ← exec (Users.list_sessions_for_user pid)
    pure (record {
      user = user;
      latest_display_name = latest_name aliases;
      display_names = aliases;
      sessions = sessions;
    })

  unfoldable pub patch_user : Text → Text → PatchUserRequest → Handler St User
  patch_user service pid_raw req = do
    pid ← checked (Ids.new pid_raw)
    transaction (do
      user ← exec (Users.set_admin pid req.is_admin)
      audit (
          user_entry service pid (text "user") pid.as_str
            (if req.is_admin then text "admin_granted" else text "admin_revoked")
            (some (obj (member (text "is_admin") (bool req.is_admin) end))))
      pure user)
