-- ===== src/History/Evolve.antt =====
-- How a handler takes the database from one state to another: a relation on databases that every
-- statement keeps is kept by the handlers that are made of them.
use ovp_data_api.Base.{DateTime, Result, ok, err}
use ovp_data_api.Error.{AppError}
use ovp_data_api.Ids.{PseudoIdError}
use ovp_data_api.Db.{Db, Stmt, reading}
use ovp_data_api.App.{World, Handler, bound, stored, ended, checked}

-- A relation that is reflexive and transitive.
pub record Evolution : Type 1 where
  pub rel : Db → Db → Type 0
  pub stays : (db : Db) → rel db db
  pub joins : (a b c : Db) → rel a b → rel b c → rel a c

-- The database that a statement leaves, where it succeeds.
abbrev pub Moved : {A : Type 0} → (Db → Db → Type 0) → Db → Result AppError (A × Db) → Type 0
Moved R db (ok (a, db')) = R db db'
Moved R db (err e) = Unit

pub record Steps (E : Evolution) {A : Type 0} (s : Stmt A) : Type 0 where
  pub step : (now : DateTime) (db : Db) → Moved E.rel db (s now db)

-- The database that a handler leaves, whether it succeeds or not, is later than `b`.
pub record Later (E : Evolution) {St A : Type 0} (b : Db) (x : Result AppError A × World St)
    : Type 0 where
  pub later : E.rel b x.1.db

abbrev pub Moves : {St A : Type 0} → Evolution → Handler St A → Type 0
Moves {St} E h = (b : Db) (w : World St) → E.rel b w.db → Later E b (h w)

module _ (E : Evolution) where
  -- The result of a read.
  pub reading-Moved : {A : Type 0} (db : Db) (r : Result AppError A) → Moved E.rel db (reading db r)
  reading-Moved db (ok a) = E.stays db
  reading-Moved db (err e) = tt

module _ {E : Evolution} where
  module _ {St A : Type 0} {b : Db} where
    ran :
        (r : Result AppError (A × Db)) (w : World St)
        → E.rel b w.db
        → Moved E.rel w.db r
        → Later E b (stored r w)
    ran (ok (a, db)) w h m = record { later = E.joins b w.db db h m }
    ran (err e) w h m = record { later = h }

    pub runs :
        {s : Stmt A}
        → Steps E s
        → (w : World St) → E.rel b w.db
        → Later E b (stored (s w.now w.db) w)
    runs law w h = ran _ w h (law.step w.now w.db)

    pub within :
        (w : World St) (x : Result AppError A × World St)
        → E.rel b w.db
        → Later E b x
        → Later E b (ended w.db x)
    within w (ok a, w₁) h m = m
    within w (err e, w₁) h m = record { later = h }

    -- A result that is there, such as that of `lift`.
    pub given : (r : Result AppError A) (w : World St) → E.rel b w.db → Later E b (r, w)
    given r w h = record { later = h }

    pub checks :
        (r : Result PseudoIdError A) (w : World St) → E.rel b w.db → Later E b (checked r w)
    checks (ok a) w h = record { later = h }
    checks (err e) w h = record { later = h }

  -- One step after another.
  pub after :
      {St A B : Type 0} {b : Db} {x : Result AppError A × World St} {f : A → Handler St B}
      → Later E b x
      → ((a : A) (w : World St) → E.rel b w.db → Later E b (f a w))
      → Later E b (bound x f)
  after {x = (ok a, w)} m k = k a w m.later
  after {x = (err e, w)} m k = record { later = m.later }

  -- The same for a step without a result.
  pub next :
      {St B : Type 0} {b : Db} {x : Result AppError (Unit {0}) × World St} {k : Handler St B}
      → Later E b x
      → ((w : World St) → E.rel b w.db → Later E b (k w))
      → Later E b (bound x (λ _. k))
  next {x = (ok a, w)} m h = h w m.later
  next {x = (err e, w)} m h = record { later = m.later }
