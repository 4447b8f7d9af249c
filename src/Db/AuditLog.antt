-- ===== src/Db/AuditLog.antt =====
-- src/db/audit_log.rs: the append-only log.
pub mod Newest
use ovp_data_api.Base.{
  not, any, has_nul, holds_nul, ℤ, pos, negsuc, Text, text_eq, Uuid, DateTime, Bool, true, false,
  ◌&&◌, ◌==◌, ltb, leb, Option, none, some, unwrap_or, Json, List, [], ◌∷◌, ◌++◌, take, Result, ok,
  err, select, if◌then◌else◌, order_by,
}
use ovp_data_api.Error.{AppError, database}
use ovp_data_api.Db.Rows.{AuditRow}
use ovp_data_api.Db.Statement.{Stmt, reading}

pub record Entry : Type 0 where
  pub actor_service : Text
  pub actor_pseudo : Option Text
  pub session_id : Option Uuid
  pub resource_type : Text
  pub resource_id : Text
  pub action : Text
  pub detail : Option Json

abbrev pub row_of : Uuid → DateTime → Entry → AuditRow
row_of id now e = record {
  id = id;
  at_ts = now;
  actor_service = e.actor_service;
  actor_pseudo = e.actor_pseudo;
  session_id = e.session_id;
  resource_type = e.resource_type;
  resource_id = e.resource_id;
  action = e.action;
  detail = e.detail;
}

-- PostgreSQL takes no U+0000 in a TEXT or JSONB column.
abbrev pub storable : Entry → Bool
storable e =
    not (has_nul e.actor_service)
    && not (elim e.actor_pseudo [ none ↦ false | some s ↦ has_nul s ])
    && not (has_nul e.resource_type)
    && not (has_nul e.resource_id)
    && not (has_nul e.action)
    && not (elim e.detail [ none ↦ false | some j ↦ holds_nul j ])

abbrev pub has_id : Uuid → AuditRow → Bool
has_id id r = r.id == id

-- What the columns and the primary key ask of a row.
unfoldable pub admits : Uuid → Entry → List AuditRow → Bool
admits id e rows = storable e && not (any (has_id id) rows)

-- `append` and `append_tx`; `id` is what gen_random_uuid() gives.
unfoldable pub append : Uuid → Entry → Stmt (Unit {0})
append id e now db =
    if admits id e db.audit_log
    then ok (tt, record db { audit_log = db.audit_log ++ row_of id now e ∷ [] })
    else err database

pub record QueryFilter : Type 0 where
  pub session_id : Option Uuid
  pub resource_type : Option Text
  pub since : Option DateTime
  pub limit : Option ℤ

abbrev pub is_session : Option Uuid → Option Uuid → Bool
is_session none s = true
is_session (some id) none = false
is_session (some id) (some j) = j == id

abbrev pub is_type : Option Text → Text → Bool
is_type none t = true
is_type (some wanted) t = text_eq t wanted

abbrev pub is_since : Option DateTime → DateTime → Bool
is_since none t = true
is_since (some since) t = leb since t

abbrev pub wanted : QueryFilter → AuditRow → Bool
wanted f r =
    is_session f.session_id r.session_id
    && is_type f.resource_type r.resource_type
    && is_since f.since r.at_ts

-- ORDER BY at_ts DESC
abbrev pub newer : AuditRow → AuditRow → Bool
newer a b = ltb b.at_ts a.at_ts

unfoldable pub newest_first : List AuditRow → List AuditRow
newest_first = order_by newer

-- LIMIT COALESCE($4, 200), which must not be negative
abbrev pub limited : ℤ → List AuditRow → Result AppError (List AuditRow)
limited (pos n) rows = ok (take n rows)
limited (negsuc n) rows = err database

unfoldable pub query : QueryFilter → Stmt (List AuditRow)
unfolding newest_first
query f now db =
    reading db
      (limited (unwrap_or f.limit (pos 200)) (newest_first (select (wanted f) db.audit_log)))
