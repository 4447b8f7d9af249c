-- ===== src/Db/Users.antt =====
-- src/db/users.rs: statements on the users table, with the joins of the admin pages.
use ovp_data_api.Base.{
  ℕ, suc, Text, Uuid, DateTime, Bool, true, false, not, ◌&&◌, ◌||◌, ◌==◌, ltb, Option, none, some,
  is_some, List, [], ◌∷◌, ◌++◌, map, any, first, ok, err, select, update, if◌then◌else◌, order_by,
}
use ovp_data_api.Error.{database, not_found}
use ovp_data_api.State.{as_str}
use ovp_data_api.Ids.{PseudoId, pseudo_eq, is_valid_pseudo_id}
use ovp_data_api.Db.Rows.{Db, User, Participant, Session}
use ovp_data_api.Db.Statement.{Stmt, fetch_or, fetch_one, reading}
use ovp_data_api.Db.DisplayNames

pub record UpsertUser : Type 0 where
  pub pseudo_id : PseudoId

abbrev pub has_pseudo : PseudoId → User → Bool
has_pseudo p u = pseudo_eq u.pseudo_id p

abbrev pub new_user : PseudoId → Bool → DateTime → User
new_user p is_admin now = record {
  pseudo_id = p;
  is_admin = is_admin;
  data_wiped_at = none;
  created_at = now;
}

-- INSERT INTO users … ON CONFLICT (pseudo_id) DO UPDATE SET … RETURNING *, where `f` is the SET
-- clause. The table checks that the id is a pseudonym.
unfoldable pub insert_or : (User → User) → PseudoId → Bool → Stmt User
insert_or f p is_admin now db =
    if not (is_valid_pseudo_id p.as_str)
    then err database
    else if any (has_pseudo p) db.users
    then reading (record db { users = update (has_pseudo p) f db.users })
        (fetch_one (map f (select (has_pseudo p) db.users)))
    else ok
        (new_user p is_admin now, record db { users = db.users ++ new_user p is_admin now ∷ [] })

unfoldable pub upsert : UpsertUser → Stmt User
unfolding insert_or
upsert input = insert_or (λ u. record u { pseudo_id = input.pseudo_id }) input.pseudo_id false

unfoldable pub get : PseudoId → Stmt User
get p now db = reading db (fetch_or not_found (select (has_pseudo p) db.users))

-- ORDER BY created_at DESC
unfoldable pub newest_users : List User → List User
newest_users = order_by (λ a b. ltb b.created_at a.created_at)

unfoldable pub list_all : Stmt (List User)
unfolding newest_users
list_all now db = ok (newest_users db.users, db)

pub record AdminUserListItem : Type 0 where
  pub pseudo_id : PseudoId
  pub is_admin : Bool
  pub data_wiped_at : Option DateTime
  pub created_at : DateTime
  pub latest_display_name : Option Text
  pub session_count : ℕ
  pub last_active_at : Option DateTime
  pub has_consent_on_file : Bool

-- session_participants JOIN sessions ON sessions.id = session_id, of one user
unfoldable pub joined : PseudoId → List Session → List Participant → List (Participant × Session)
joined p sessions [] = []
joined p sessions (r ∷ rs) =
    let rest = joined p sessions rs in
    if pseudo_eq r.pseudo_id p
    then map (λ s. (r, s)) (select (λ (s : Session). s.id == r.session_id) sessions) ++ rest
    else rest

-- COUNT(DISTINCT session_id)
unfoldable pub count_distinct : List Uuid → ℕ
count_distinct [] = 0
count_distinct (x ∷ xs) =
    let rest = count_distinct xs in if any (λ y. y == x) xs then rest else suc rest

-- MAX(started_at), which is NULL over no rows
unfoldable pub latest_start : List Session → Option DateTime
latest_start [] = none
latest_start (s ∷ ss) = elim (latest_start ss) [
  | none ↦ some s.started_at
  | some t ↦ if ltb t s.started_at then some s.started_at else some t
]

unfoldable pub details : Db → User → AdminUserListItem
unfolding joined count_distinct latest_start DisplayNames.newest_first
details db u =
    let rows = joined u.pseudo_id db.sessions db.participants in
    record {
      pseudo_id = u.pseudo_id;
      is_admin = u.is_admin;
      data_wiped_at = u.data_wiped_at;
      created_at = u.created_at;
      latest_display_name =
          elim (first (
            DisplayNames.newest_first
              (select (DisplayNames.of_user u.pseudo_id) db.display_names))) [
                | none ↦ none
                | some d ↦ some d.display_name
              ];
      session_count = count_distinct (map (λ r. r.0.session_id) rows);
      last_active_at = latest_start (map (λ r. r.1) rows);
      has_consent_on_file = any (λ r. is_some r.0.consent_scope) rows;
    }

-- ORDER BY last_active_at DESC NULLS LAST, created_at DESC
abbrev pub active_before : Option DateTime → Option DateTime → Bool → Bool
active_before none none newer = newer
active_before none (some t) newer = false
active_before (some s) none newer = true
active_before (some s) (some t) newer = ltb t s || (s == t && newer)

abbrev pub comes_before : AdminUserListItem → AdminUserListItem → Bool
comes_before a b = active_before a.last_active_at b.last_active_at (ltb b.created_at a.created_at)

unfoldable pub most_active_first : List AdminUserListItem → List AdminUserListItem
most_active_first = order_by comes_before

unfoldable pub list_all_with_details : Stmt (List AdminUserListItem)
unfolding details most_active_first
list_all_with_details now db = ok (most_active_first (map (details db) db.users), db)

pub record ParticipatedSession : Type 0 where
  pub session_id : Uuid
  pub campaign_name : Option Text
  pub title : Option Text
  pub started_at : DateTime
  pub ended_at : Option DateTime
  pub status : Text
  pub consent_scope : Option Text
  pub data_wiped_at : Option DateTime

abbrev pub participated : Participant × Session → ParticipatedSession
participated (r, s) = record {
  session_id = s.id;
  campaign_name = s.campaign_name;
  title = none;
  started_at = s.started_at;
  ended_at = s.ended_at;
  status = as_str s.status;
  consent_scope = r.consent_scope;
  data_wiped_at = r.data_wiped_at;
}

-- ORDER BY started_at DESC
unfoldable pub latest_first : List ParticipatedSession → List ParticipatedSession
latest_first = order_by (λ a b. ltb b.started_at a.started_at)

unfoldable pub list_sessions_for_user : PseudoId → Stmt (List ParticipatedSession)
unfolding joined latest_first
list_sessions_for_user p now db =
    ok (latest_first (map participated (joined p db.sessions db.participants)), db)

unfoldable pub set_admin : PseudoId → Bool → Stmt User
unfolding insert_or
set_admin p is_admin = insert_or (λ u. record u { is_admin = is_admin }) p is_admin
