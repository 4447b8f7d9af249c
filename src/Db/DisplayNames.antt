-- ===== src/Db/DisplayNames.antt =====
-- src/db/display_names.rs: the aliases of a user.
use ovp_data_api.Base.{
  ◌+◌, ◌-◌, ◌^◌, Text, text, text_eq, DateTime, Bool, not, ◌&&◌, ◌||◌, ltb, leb, List, [], ◌∷◌,
  ◌++◌, map, any, ok, err, select, update, if◌then◌else◌, order_by,
}
use ovp_data_api.Error.{database, bad_request}
use ovp_data_api.Ids.{PseudoId, pseudo_eq}
use ovp_data_api.Db.Rows.{DisplayName}
use ovp_data_api.Db.Statement.{Stmt, fetch_one, reading}

pub record UpsertDisplayName : Type 0 where
  pub display_name : Text
  pub source : Text

abbrev pub of_user : PseudoId → DisplayName → Bool
of_user p d = pseudo_eq d.pseudo_id p

-- the primary key
abbrev pub of_alias : PseudoId → Text → DisplayName → Bool
of_alias p name d = of_user p d && text_eq d.display_name name

abbrev pub is_source : Text → Bool
is_source s = text_eq s (text "bot") || text_eq s (text "portal_override")

abbrev pub seen_again : DateTime → DisplayName → DisplayName
seen_again now d = record d { last_seen_at = now; seen_count = d.seen_count + 1 }

abbrev pub new_alias : PseudoId → UpsertDisplayName → DateTime → DisplayName
new_alias p input now = record {
  pseudo_id = p;
  display_name = input.display_name;
  first_seen_at = now;
  last_seen_at = now;
  seen_count = 1;
  source = input.source;
}

-- INSERT … ON CONFLICT (pseudo_id, display_name) DO UPDATE …; the count is an INTEGER, and the user
-- must exist.
unfoldable pub insert_alias : PseudoId → UpsertDisplayName → Stmt DisplayName
insert_alias p input now db =
    let key = of_alias p input.display_name in
    if any (λ d. key d && leb (2 ^ 31 - 1) d.seen_count) db.display_names
    then err database
    else if any key db.display_names
    then reading (record db { display_names = update key (seen_again now) db.display_names })
        (fetch_one (map (seen_again now) (select key db.display_names)))
    else if any (λ u. pseudo_eq u.pseudo_id p) db.users
    then ok (
      new_alias p input now,
      record db { display_names = db.display_names ++ new_alias p input now ∷ [] },
    )
    else err database

unfoldable pub upsert : PseudoId → UpsertDisplayName → Stmt DisplayName
unfolding insert_alias
upsert p input now db =
    if not (is_source input.source) then err bad_request else insert_alias p input now db

-- ORDER BY last_seen_at DESC
unfoldable pub newest_first : List DisplayName → List DisplayName
newest_first = order_by (λ a b. ltb b.last_seen_at a.last_seen_at)

unfoldable pub list : PseudoId → Stmt (List DisplayName)
unfolding newest_first
list p now db = ok (newest_first (select (of_user p) db.display_names), db)
