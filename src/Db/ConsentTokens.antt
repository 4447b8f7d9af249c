-- ===== src/Db/ConsentTokens.antt =====
-- src/db/consent_tokens.rs: tokens by which a participant manages consent without logging in.
pub mod Open
use ovp_data_api.Base.{
  ℕ, ◌+◌, ◌*◌, Text, Uuid, DateTime, Bool, not, ◌&&◌, ◌==◌, ltb, is_some, any, Option, none, some,
  List, [], ◌∷◌, ◌++◌, Result, ok, err, select, update, first, if◌then◌else◌,
}
use ovp_data_api.Error.{AppError, database}
use ovp_data_api.Ids.{PseudoId, pseudo_eq}
use ovp_data_api.Db.Rows.{Db, ConsentToken, Session, Participant}
use ovp_data_api.Db.Statement.{Stmt, fetch_one, reading, session_exists}

pub record ConsentTokenWithContext : Type 0 where
  pub token : ConsentToken
  pub session : Session
  pub participant : Participant

-- INTERVAL '30 days', in microseconds
abbrev pub thirty_days : ℕ
thirty_days = 30 * 24 * 3600 * 1_000_000

abbrev pub has_token : Uuid → ConsentToken → Bool
has_token token t = t.token == token

abbrev pub new_token : Uuid → Uuid → Uuid → PseudoId → DateTime → ConsentToken
new_token token session_id participant_id p now = record {
  token = token;
  session_id = session_id;
  participant_id = participant_id;
  pseudo_id = p;
  created_at = now;
  expires_at = now + thirty_days;
  revoked_at = none;
}

-- The rows that the token refers to exist, and it is new.
abbrev pub admits : Uuid → Uuid → Uuid → PseudoId → Db → Bool
admits token session_id participant_id p db =
    session_exists session_id db
    && any (λ r. r.id == participant_id) db.participants
    && any (λ u. pseudo_eq u.pseudo_id p) db.users
    && not (any (has_token token) db.consent_tokens)

-- `token` is what gen_random_uuid() gives.
unfoldable pub create : Uuid → Uuid → Uuid → PseudoId → Stmt ConsentToken
create token session_id participant_id p now db =
    let row = new_token token session_id participant_id p now in
    if admits token session_id participant_id p db
    then ok (row, record db { consent_tokens = db.consent_tokens ++ row ∷ [] })
    else err database

-- WHERE token = $1 AND revoked_at IS NULL AND expires_at > NOW()
abbrev pub is_open : Uuid → DateTime → ConsentToken → Bool
is_open token now t = has_token token t && not (is_some t.revoked_at) && ltb now t.expires_at

abbrev pub context : ConsentToken → Db → Result AppError (Option ConsentTokenWithContext)
context t db = elim (fetch_one (select (λ s. s.id == t.session_id) db.sessions)) [
  | err e ↦ err e
  | ok session ↦ elim (fetch_one (select (λ r. r.id == t.participant_id) db.participants)) [
    | err e ↦ err e
    | ok participant ↦
        ok (some (record { token = t; session = session; participant = participant }))
  ]
]

unfoldable pub validate : Uuid → Stmt (Option ConsentTokenWithContext)
validate token now db = elim (first (select (is_open token now) db.consent_tokens)) [
  | none ↦ ok (none, db)
  | some t ↦ reading db (context t db)
]

unfoldable pub revoke : Uuid → Stmt (Unit {0})
revoke token now db = ok (
  tt,
  record db {
    consent_tokens =
        update (has_token token) (λ t. record t { revoked_at = some now }) db.consent_tokens;
  },
)
