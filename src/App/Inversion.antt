-- ===== src/App/Inversion.antt =====
-- What a handler that succeeded did on the way.
use ovp_data_api.Base.{
  ◌+◌, [], ◌∷◌, ◌++◌, Bool-cases, inl, inr, ap, sym, Uuid, select, Result, ok, err, ◌≡◌, refl,
  arith,
}
use ovp_data_api.Error.{AppError, not_found}
use ovp_data_api.Ids.{PseudoIdError}
use ovp_data_api.Db.{Db, Session, reading, fetch_or}
use ovp_data_api.Db.Sessions
use ovp_data_api.Db.AuditLog
use ovp_data_api.Db.AuditLog.{Entry}
use ovp_data_api.App.{World, Handler, bound, stored, ended, checked, exec, audit}

module _ {St A B : Type 0} where
  pub >>=-ok :
      (m : Result AppError A × World St) (f : A → Handler St B) (b : B) (w' : World St)
      → bound m f ≡ (ok b, w')
      → (a : A) × (w₁ : World St) × (m ≡ (ok a, w₁)) × (f a w₁ ≡ (ok b, w'))
  >>=-ok (ok a, w₁) f b w' h = (a, w₁, refl, h)
  >>=-ok (err e, w₁) f b w' h = cc

module _ {St A : Type 0} where
  pub exec-ok :
      (r : Result AppError (A × Db)) (w : World St) (a : A) (w' : World St)
      → stored r w ≡ (ok a, w')
      → (db : Db) × (r ≡ ok (a, db)) × (w' ≡ record w { db = db })
  exec-ok (ok (b, db)) w a w' h = (db, ground arith, ground arith)
  exec-ok (err e) w a w' h = cc

  pub transaction-ok :
      (before : Db) (x : Result AppError A × World St) (a : A) (w' : World St)
      → ended before x ≡ (ok a, w')
      → x ≡ (ok a, w')
  transaction-ok before (ok b, w₁) a w' h = h
  transaction-ok before (err e, w₁) a w' h = cc

  -- A transaction that fails leaves the database as it found it.
  pub transaction-err :
      (before : Db) (x : Result AppError A × World St) (e : AppError) (w' : World St)
      → ended before x ≡ (err e, w')
      → w'.db ≡ before
  transaction-err before (ok b, w₁) e w' h = cc
  transaction-err before (err e₁, w₁) e w' h = ground arith

  pub checked-ok :
      (r : Result PseudoIdError A) (w : World St) (a : A) (w' : World St)
      → checked r w ≡ (ok a, w')
      → (r ≡ ok a) × (w' ≡ w)
  checked-ok (ok b) w a w' h = (ground arith, ground arith)
  checked-ok (err e) w a w' h = cc

module _ {St A : Type 0} where
  -- A read changes nothing.
  pub reading-ok :
      (r : Result AppError A) (w : World St) (a : A) (w' : World St)
      → stored (reading w.db r) w ≡ (ok a, w')
      → (r ≡ ok a) × (w' ≡ w)
  reading-ok (ok b) w a w' h = (ground arith, ground arith)
  reading-ok (err e) w a w' h = cc

module _ {St : Type 0} where
  pub get-reads :
      (id : Uuid) (session : Session) (w w' : World St)
      → exec (Sessions.get id) w ≡ (ok session, w')
      → (fetch_or not_found (select (Sessions.has_id id) w.db.sessions) ≡ ok session) × (w' ≡ w)
  unfolding Sessions.get
  get-reads id session w w' h = reading-ok _ w session w' h

  -- An audit row is all that `audit` adds to the database, and a drawn id all else that it takes.
  pub audit-adds :
      (e : Entry) (w w' : World St)
      → audit e w ≡ (ok tt, w')
      → w' ≡ record w {
        drawn = w.drawn + 1;
        db = record w.db {
          audit_log = w.db.audit_log ++ AuditLog.row_of (w.uuids w.drawn) w.now e ∷ [];
        };
      }
  unfolding AuditLog.append
  audit-adds e w w' = elim (Bool-cases (AuditLog.admits (w.uuids w.drawn) e w.db.audit_log)) [
    | inl k ↦ rw k (λ h. ap (λ (x : Result AppError (Unit {0}) × World St). x.1) (sym h))
    | inr k ↦ rw k (λ h. ground arith)
  ]

  pub audit-keeps :
      (e : Entry) (w w' : World St)
      → audit e w ≡ (ok tt, w')
      → (w'.db.sessions ≡ w.db.sessions)
        × (w'.events ≡ w.events)
        × (record w'.db { audit_log = [] } ≡ record w.db { audit_log = [] })
  audit-keeps e w w' h =
      let left = audit-adds e w w' h in
      (
        ap (λ (x : World St). x.db.sessions) left,
        ap (λ (x : World St). x.events) left,
        ap (λ (x : World St). record x.db { audit_log = [] }) left,
      )
