-- ===== src/Db/Participants.antt =====
-- src/db/participants.rs: statements on the session_participants table.
use ovp_data_api.Base.{
  Text, text, text_eq, Uuid, DateTime, Bool, true, false, not, ◌&&◌, ◌||◌, ◌==◌, ltb, Option, none,
  some, unwrap_or, List, [], ◌∷◌, ◌++◌, map, any, Result, ok, err, select, update, if◌then◌else◌,
  order_by,
}
use ovp_data_api.Error.{AppError, database, not_found, bad_request}
use ovp_data_api.Ids.{PseudoId, pseudo_eq, is_valid_pseudo_id}
use ovp_data_api.App.{Handler, pure, exec, transaction, new_uuid, ◌>>=◌, ◌>>◌}
use ovp_data_api.Db.Rows.{Db, User, Participant}
use ovp_data_api.Db.Statement.{Stmt, fetch_or, fetch_one, reading, session_exists}

pub record AddParticipant : Type 0 where
  pub pseudo_id : PseudoId
  pub mid_session_join : Bool

abbrev pub is_user : PseudoId → User → Bool
is_user p u = pseudo_eq u.pseudo_id p

-- INSERT INTO users (pseudo_id) … ON CONFLICT: a user that is there stays as it is. The table
-- checks that the id is a pseudonym.
unfoldable pub seed_user : PseudoId → DateTime → Db → Result AppError Db
seed_user p now db =
    if not (is_valid_pseudo_id p.as_str)
    then err database
    else if any (is_user p) db.users
    then ok db
    else ok (record db {
      users =
          db.users
          ++ record { pseudo_id = p; is_admin = false; data_wiped_at = none; created_at = now }
            ∷ [];
    })

abbrev pub of_pair : Uuid → PseudoId → Participant → Bool
of_pair session_id p r = r.session_id == session_id && pseudo_eq r.pseudo_id p

abbrev pub new_participant : Uuid → Uuid → AddParticipant → DateTime → Participant
new_participant id session_id input now = record {
  id = id;
  session_id = session_id;
  pseudo_id = input.pseudo_id;
  consent_scope = none;
  consented_at = none;
  mid_session_join = input.mid_session_join;
  no_llm_training = false;
  no_public_release = false;
  data_wiped_at = none;
  created_at = now;
}

abbrev pub rejoined : Bool → Participant → Participant
rejoined mid r = record r { mid_session_join = mid }

-- The constraints of the table: the session and the user exist, the id is new and the user's a
-- pseudonym.
abbrev pub admits : Uuid → Uuid → PseudoId → Db → Bool
admits id session_id p db =
    session_exists session_id db
    && any (is_user p) db.users
    && is_valid_pseudo_id p.as_str
    && not (any (λ r. r.id == id) db.participants)

-- INSERT … ON CONFLICT (session_id, pseudo_id) DO UPDATE SET mid_session_join; `id` is the id that
-- the table's default draws.
unfoldable pub upsert : Uuid → Uuid → AddParticipant → Stmt Participant
upsert id session_id input now db =
    let pair = of_pair session_id input.pseudo_id in
    if any pair db.participants
    then reading
        (record db { participants = update pair (rejoined input.mid_session_join) db.participants })
        (fetch_one (map (rejoined input.mid_session_join) (select pair db.participants)))
    else if admits id session_id input.pseudo_id db
    then ok (
      new_participant id session_id input now,
      record db { participants = db.participants ++ new_participant id session_id input now ∷ [] },
    )
    else err database

unfoldable pub add_row : Uuid → Uuid → AddParticipant → Stmt Participant
unfolding seed_user upsert
add_row id session_id input now db = elim (seed_user input.pseudo_id now db) [
  | err e ↦ err e
  | ok seeded ↦ upsert id session_id input now seeded
]

unfoldable pub seed_users : List AddParticipant → Stmt (Unit {0})
unfolding seed_user
seed_users [] now db = ok (tt, db)
seed_users (i ∷ is) now db = elim (seed_user i.pseudo_id now db) [
  | err e ↦ err e
  | ok seeded ↦ seed_users is now seeded
]

-- ON CONFLICT DO UPDATE cannot affect a row twice in one statement.
unfoldable pub no_repeats : List AddParticipant → Bool
no_repeats [] = true
no_repeats (i ∷ is) = not (any (λ j. pseudo_eq j.pseudo_id i.pseudo_id) is) && no_repeats is

abbrev pub require_distinct : List AddParticipant → Stmt (Unit {0})
require_distinct is now db = if no_repeats is then ok (tt, db) else err database

module _ {St : Type 0} where
  unfoldable pub add : Uuid → AddParticipant → Handler St Participant
  add session_id input = do id ← new_uuid; exec (add_row id session_id input)

  -- the rows of the one INSERT
  unfoldable pub upsert_rows : Uuid → List AddParticipant → Handler St (List Participant)
  upsert_rows session_id [] = pure []
  upsert_rows session_id (i ∷ is) = do
    id ← new_uuid
    row ← exec (upsert id session_id i)
    rows ← upsert_rows session_id is
    pure (row ∷ rows)

  unfoldable pub add_many : Uuid → List AddParticipant → Handler St (List Participant)
  unfolding upsert_rows
  add_many session_id [] = pure []
  add_many session_id (i ∷ is) = transaction (do
    exec (seed_users (i ∷ is))
    exec (require_distinct (i ∷ is))
    upsert_rows session_id (i ∷ is))

-- ORDER BY created_at ASC
unfoldable pub oldest_first : List Participant → List Participant
oldest_first = order_by (λ a b. ltb a.created_at b.created_at)

unfoldable pub list : Uuid → Stmt (List Participant)
unfolding oldest_first
list session_id now db =
    ok (oldest_first (select (λ p. p.session_id == session_id) db.participants), db)

abbrev pub has_id : Uuid → Participant → Bool
has_id id p = p.id == id

unfoldable pub get : Uuid → Stmt Participant
get id now db = reading db (fetch_or not_found (select (has_id id) db.participants))

-- UPDATE session_participants SET … WHERE id = $1 RETURNING *
unfoldable pub update_row :
    Uuid → (Participant → Participant) → Db → Result AppError (Participant × Db)
update_row id f db =
    reading (record db { participants = update (has_id id) f db.participants })
      (fetch_or not_found (map f (select (has_id id) db.participants)))

pub record UpdateConsent : Type 0 where
  pub consent_scope : Text
  pub consented_at : Option DateTime

abbrev pub is_scope : Text → Bool
is_scope s = text_eq s (text "full") || text_eq s (text "decline") || text_eq s (text "timed_out")

abbrev pub with_consent : UpdateConsent → DateTime → Participant → Participant
with_consent input now p = record p {
  consent_scope = some input.consent_scope;
  consented_at = some (unwrap_or input.consented_at now);
}

unfoldable pub update_consent : Uuid → UpdateConsent → Stmt Participant
unfolding update_row
update_consent id input now db =
    if not (is_scope input.consent_scope)
    then err bad_request
    else update_row id (with_consent input now) db

pub record UpdateLicense : Type 0 where
  pub no_llm_training : Option Bool
  pub no_public_release : Option Bool

abbrev pub with_license : UpdateLicense → Participant → Participant
with_license input p = record p {
  no_llm_training = unwrap_or input.no_llm_training p.no_llm_training;
  no_public_release = unwrap_or input.no_public_release p.no_public_release;
}

unfoldable pub update_license : Uuid → UpdateLicense → Stmt Participant
unfolding update_row
update_license id input now db = update_row id (with_license input) db

unfoldable pub mark_wiped : Uuid → PseudoId → Stmt (Unit {0})
mark_wiped session_id pseudo_id now db = ok (
  tt,
  record db {
    participants =
        update (of_pair session_id pseudo_id) (λ p. record p { data_wiped_at = some now })
          db.participants;
  },
)
