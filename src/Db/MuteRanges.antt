-- ===== src/Db/MuteRanges.antt =====
-- src/db/mute_ranges.rs: statements on the mute_ranges table.
use ovp_data_api.Base.{
  ℕ, ℤ, int_lt, Text, Uuid, Bool, not, ◌&&◌, ◌==◌, Option, List, [], ◌∷◌, ◌++◌, any, length, ok,
  err, select, delete, if◌then◌else◌, order_by,
}
use ovp_data_api.Error.{database, not_found, bad_request}
use ovp_data_api.Ids.{PseudoId, pseudo_eq, is_valid_pseudo_id}
use ovp_data_api.Db.Rows.{Db, MuteRange}
use ovp_data_api.Db.Statement.{Stmt, fetch_or, reading, session_exists}

pub record CreateMuteRange : Type 0 where
  pub start_offset_ms : ℤ
  pub end_offset_ms : ℤ
  pub reason : Option Text

abbrev pub of_stream : Uuid → PseudoId → MuteRange → Bool
of_stream session_id pseudo_id m = m.session_id == session_id && pseudo_eq m.pseudo_id pseudo_id

-- The constraints of the table: the session exists, the pseudo_id is a pseudonym, the id is new.
abbrev pub admits : Uuid → Uuid → PseudoId → Db → Bool
admits id session_id pseudo_id db =
    session_exists session_id db
    && is_valid_pseudo_id pseudo_id.as_str
    && not (any (λ m. m.id == id) db.mute_ranges)

unfoldable pub create : Uuid → Uuid → PseudoId → CreateMuteRange → Stmt MuteRange
create id session_id pseudo_id input now db =
    let row : MuteRange = record {
      id = id;
      session_id = session_id;
      pseudo_id = pseudo_id;
      start_offset_ms = input.start_offset_ms;
      end_offset_ms = input.end_offset_ms;
      reason = input.reason;
      created_at = now;
    } in
    if int_lt input.end_offset_ms input.start_offset_ms
    then err bad_request
    else if admits id session_id pseudo_id db
    then ok (row, record db { mute_ranges = db.mute_ranges ++ row ∷ [] })
    else err database

-- ORDER BY start_offset_ms ASC
unfoldable pub by_start : List MuteRange → List MuteRange
by_start = order_by (λ a b. int_lt a.start_offset_ms b.start_offset_ms)

unfoldable pub list : Uuid → PseudoId → Stmt (List MuteRange)
unfolding by_start
list session_id pseudo_id now db =
    ok (by_start (select (of_stream session_id pseudo_id) db.mute_ranges), db)

unfoldable pub delete_one : Uuid → PseudoId → Uuid → Stmt MuteRange
delete_one session_id pseudo_id range_id now db =
    let p = λ (m : MuteRange). m.id == range_id && of_stream session_id pseudo_id m in
    reading (record db { mute_ranges = delete p db.mute_ranges })
      (fetch_or not_found (select p db.mute_ranges))

abbrev pub delete_ranges : (MuteRange → Bool) → Stmt ℕ
delete_ranges p now db =
    ok (length (select p db.mute_ranges), record db { mute_ranges = delete p db.mute_ranges })

unfoldable pub delete_for_session : Uuid → Stmt ℕ
delete_for_session session_id = delete_ranges (λ m. m.session_id == session_id)

unfoldable pub delete_for_participant : Uuid → PseudoId → Stmt ℕ
delete_for_participant session_id pseudo_id = delete_ranges (of_stream session_id pseudo_id)
