-- ===== src/History/Log.antt =====
-- src/db/audit_log.rs over a history: the log only grows, and who its rows name.
use ovp_data_api.Base.{
  Text, List, [], ◌∷◌, ◌++◌, All, All-append, ◌≡◌, refl, sym, ap, ◌∙◌, Result, ok, err, Bool-cases,
  inl, inr, any, ◌==◌,
}
use mathlib.Core.Path.{subst}
use mathlib.Core.List.{append_assoc, append-nil}
use ovp_data_api.Error.{AppError}
use ovp_data_api.App.{AppState, World}
use ovp_data_api.Auth.{TokenLib}
use ovp_data_api.Db.{Db, AuditRow, reading, session_exists}
use ovp_data_api.Db.AuditLog
use ovp_data_api.Db.Sessions
use ovp_data_api.History.{Step, run}
use ovp_data_api.History.Evolve.{Evolution, Moved}
use ovp_data_api.History.Frame.{Core, laws}
use ovp_data_api.History.Run.{run-rel}
use ovp_data_api.History.Serve.{protected-Moves}
use ovp_data_api.Router.{Protected, protected_route}
use ovp_data_api.Routes.Chunks.Headers.{HeaderMap, RequestLib}

-- The log of `b` is that of `a` with rows after it, each of which `P` allows to name its actor.
unfoldable pub Grows : (Text → Type 0) → Db → Db → Type 0
Grows P a b =
    (rows : List AuditRow) × (b.audit_log ≡ a.audit_log ++ rows) × All (λ r. P r.actor_service) rows

module _ (P : Text → Type 0) where
  Grows-refl : (db : Db) → Grows P db db
  unfolding Grows
  Grows-refl db = ([], sym (append-nil db.audit_log), tt)

  Grows-trans : (a b c : Db) → Grows P a b → Grows P b c → Grows P a c
  unfolding Grows
  Grows-trans a b c (xs, e, hx) (ys, k, hy) = (
    xs ++ ys,
    k ∙ (ap (λ l. l ++ ys) e ∙ append_assoc a.audit_log xs ys),
    All-append (λ r. P r.actor_service) xs ys hx hy,
  )

  same_log : (a b : Db) → b.audit_log ≡ a.audit_log → Grows P a b
  unfolding Grows
  same_log a b e = ([], e ∙ sym (append-nil a.audit_log), tt)

  abbrev log : Evolution
  log = record { rel = Grows P; stays = Grows-refl; joins = Grows-trans }

  reads :
      {A : Type 0} (a b : Db) (r : Result AppError A)
      → b.audit_log ≡ a.audit_log
      → Moved (Grows P) a (reading b r)
  reads a b (ok x) e = same_log a b e
  reads a b (err x) e = tt

  log-Core : (actor : Text) → P actor → Core log actor
  unfolding Sessions.create Sessions.update_status Sessions.patch_fields
      Sessions.resume_from_abandoned AuditLog.append Grows session_exists
  log-Core actor h = record {
    framed = λ a b same. same_log a b same.1;
    session_create = λ i. record {
      step = λ now db. elim (Bool-cases (any (λ s. s.id == i.id) db.sessions)) [
        | inl e ↦ rw (session_exists, e) tt
        | inr e ↦
            rw (session_exists, e)
              (same_log db (record db { sessions = Sessions.created i now ∷ db.sessions }) refl)
      ];
    };
    session_status = λ id status. record { step = λ now db. reads db _ _ refl };
    session_fields = λ id e n. record { step = λ now db. reads db _ _ refl };
    session_resume = λ id. record { step = λ now db. reads db _ _ refl };
    audit_append = λ id e same. record {
      step = λ now db. elim (Bool-cases (AuditLog.admits id e db.audit_log)) [
        | inl k ↦ rw k (AuditLog.row_of id now e ∷ [], refl, (subst P (sym same) h, tt))
        | inr k ↦ rw k tt
      ];
    };
  }

module _ {St : Type 0} (state : AppState St) (lib : RequestLib) (tokens : TokenLib) where
  -- Whatever requests are served, whatever they answer, and however time and the reaper go between
  -- them: the audit log afterwards is the log before with rows after it. No row is changed, moved
  -- or removed.
  pub run-Grows :
      (ss : List Step) (w : World St) → Grows (λ _. Unit) w.db (run state lib tokens ss w).db
  run-Grows ss w = run-rel state lib tokens (λ actor. laws (log-Core (λ _. Unit) actor tt)) ss w

  -- A request that the middleware has let through under the name of a service adds no audit row
  -- that names another actor, whatever its route, its body and its result, and leaves the rows that
  -- are there as they were.
  pub protected_route-Grows :
      (headers : HeaderMap) (r : Protected) (name : Text) (w : World St)
      → Grows (λ actor. actor ≡ name) w.db (protected_route state lib tokens headers r name w).1.db
  protected_route-Grows headers r name w =
      (protected-Moves state lib tokens headers (laws (log-Core (λ actor. actor ≡ name) name refl))
        r w.db w (Grows-refl (λ actor. actor ≡ name) w.db)).later
