-- ===== src/Db/Statement.antt =====
-- Statements and what they return.
use ovp_data_api.Base.{Uuid, DateTime, Bool, List, [], ◌∷◌, Result, ok, err, ◌==◌, any}
use ovp_data_api.Error.{AppError, database}
use ovp_data_api.Db.Rows.{Db}

abbrev pub Stmt : Type 0 → Type 0
Stmt A = DateTime → Db → Result AppError (A × Db)

-- fetch_optional(…)?.ok_or_else(|| e), and fetch_one(…)?
abbrev pub fetch_or : {A : Type 0} → AppError → List A → Result AppError A
fetch_or e [] = err e
fetch_or e (a ∷ rest) = ok a

abbrev pub fetch_one : {A : Type 0} → List A → Result AppError A
fetch_one = fetch_or database

-- The result of a read, which leaves the database as it is.
abbrev pub reading : {A : Type 0} → Db → Result AppError A → Result AppError (A × Db)
reading db (ok a) = ok (a, db)
reading db (err e) = err e

-- REFERENCES sessions(id)
unfoldable pub session_exists : Uuid → Db → Bool
session_exists id db = any (λ s. s.id == id) db.sessions
