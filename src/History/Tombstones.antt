-- ===== src/History/Tombstones.antt =====
-- src/db/sessions.rs over a history: a session's row stays, as a tombstone in the end.
use ovp_data_api.Base.{
  Text, List, [], ◌∷◌, is_some, Bool-cases, inl, inr, ◌⊎◌, any, ◌==◌, true, ◌≡◌, refl, sym, ◌∙◌,
  arith, Result, ok, err, update, Bool,
}
use mathlib.Core.Path.{subst}
use ovp_data_api.Error.{AppError}
use ovp_data_api.State.{SessionStatus}
use ovp_data_api.App.{AppState, World}
use ovp_data_api.Auth.{TokenLib}
use ovp_data_api.Db.{Db, Session, reading, session_exists}
use ovp_data_api.Db.AuditLog
use ovp_data_api.Db.Sessions
use ovp_data_api.History.{Step, run}
use ovp_data_api.History.Evolve.{Evolution, Moved}
use ovp_data_api.History.Frame.{Core, laws}
use ovp_data_api.History.Run.{run-rel}
use ovp_data_api.Routes.Chunks.Headers.{RequestLib}

-- The columns of a session that no statement sets again, and that a deletion is not taken back.
abbrev pub Same : Session → Session → Type 0
Same s t =
    (t.id ≡ s.id)
    × (t.guild_id ≡ s.guild_id)
    × (t.started_at ≡ s.started_at)
    × (t.s3_prefix ≡ s.s3_prefix)
    × (t.created_at ≡ s.created_at)
    × (is_some s.deleted_at ≡ true → is_some t.deleted_at ≡ true)

abbrev pub In : Session → List Session → Type 0
In s [] = ⊥
In s (t ∷ ts) = (t ≡ s) ⊎ In s ts

unfoldable pub Kept : List Session → List Session → Type 0
Kept xs ys = (s : Session) → In s xs → (t : Session) × In t ys × Same s t

Kept-refl : (xs : List Session) → Kept xs xs
unfolding Kept
Kept-refl xs s h = (s, h, (refl, refl, refl, refl, refl, λ k. k))

Kept-trans : (xs ys zs : List Session) → Kept xs ys → Kept ys zs → Kept xs zs
unfolding Kept
Kept-trans xs ys zs f g s h =
    let (t, ht, a) = f s h in
    let (u, hu, b) = g t ht in
    (u, hu, (b.0 ∙ a.0, b.1 ∙ a.1, b.2 ∙ a.2, b.3 ∙ a.3, b.4 ∙ a.4, λ k. b.5 (a.5 k)))

In-update :
    (p : Session → Bool) (f : Session → Session) (xs : List Session) (s : Session)
    → ((x : Session) → Same x (f x))
    → In s xs
    → (t : Session) × In t (update p f xs) × Same s t
unfolding update
In-update p f [] s keeps h = elim h [ ]
In-update p f (x ∷ xs) s keeps (inl e) = elim (Bool-cases (p x)) [
  | inl c ↦ (f x, inl (rw c refl), subst (λ z. Same z (f x)) e (keeps x))
  | inr c ↦ (x, inl (rw c refl), subst (λ z. Same z x) e (refl, refl, refl, refl, refl, λ k. k))
]
In-update p f (x ∷ xs) s keeps (inr h) =
    let (t, ht, same) = In-update p f xs s keeps h in (t, inr ht, same)

Kept-update :
    (p : Session → Bool) (f : Session → Session) (xs : List Session)
    → ((x : Session) → Same x (f x))
    → Kept xs (update p f xs)
unfolding Kept
Kept-update p f xs keeps s h = In-update p f xs s keeps h

Kept-new : (x : Session) (xs : List Session) → Kept xs (x ∷ xs)
unfolding Kept
Kept-new x xs s h = (s, inr h, (refl, refl, refl, refl, refl, λ k. k))

abbrev kept : Evolution
kept = record {
  rel = λ a b. Kept a.sessions b.sessions;
  stays = λ db. Kept-refl db.sessions;
  joins = λ a b c. Kept-trans a.sessions b.sessions c.sessions;
}

reads :
    {A : Type 0} (a b : Db) (r : Result AppError A)
    → Kept a.sessions b.sessions
    → Moved kept.rel a (reading b r)
reads a b (ok x) h = h
reads a b (err e) h = tt

status-Same :
    (status : SessionStatus) (now : _) (s : Session) → Same s (Sessions.with_status status now s)
unfolding Sessions.with_status
status-Same status now s = (refl, refl, refl, refl, refl, λ k. ground arith)

kept-Core : (actor : Text) → Core kept actor
unfolding Sessions.create Sessions.update_status Sessions.patch_fields
    Sessions.resume_from_abandoned AuditLog.append session_exists
kept-Core actor = record {
  framed = λ a b same. subst (λ l. Kept a.sessions l) (sym same.0) (Kept-refl a.sessions);
  session_create = λ i. record {
    step = λ now db. elim (Bool-cases (any (λ s. s.id == i.id) db.sessions)) [
      | inl e ↦ rw (session_exists, e) tt
      | inr e ↦ rw (session_exists, e) (Kept-new (Sessions.created i now) db.sessions)
    ];
  };
  session_status = λ id status. record {
    step = λ now db. reads db _ _ (
        Kept-update (Sessions.has_id id) (Sessions.with_status status now) db.sessions
          (status-Same status now));
  };
  session_fields = λ id e n. record {
    step = λ now db. reads db _ _ (
        Kept-update (Sessions.has_id id) (Sessions.with_fields e n) db.sessions
          (λ s. (refl, refl, refl, refl, refl, λ k. k)));
  };
  session_resume = λ id. record {
    step = λ now db. reads db _ _ (
        Kept-update (Sessions.has_id id) Sessions.resumed db.sessions
          (λ s. (refl, refl, refl, refl, refl, λ k. k)));
  };
  audit_append = λ id e same. record {
    step = λ now db. elim (Bool-cases (AuditLog.admits id e db.audit_log)) [
      | inl k ↦ rw k (Kept-refl db.sessions)
      | inr k ↦ rw k tt
    ];
  };
}

module _ {St : Type 0} (state : AppState St) (lib : RequestLib) (tokens : TokenLib) where
  -- Along every history of requests, reaper ticks and passing time, a session that is there stays:
  -- afterwards there is a row of the same id, guild, start, key prefix and creation, and where the
  -- row had a deletion time it has one still.
  pub run-Kept :
      (ss : List Step) (w : World St) → Kept w.db.sessions (run state lib tokens ss w).db.sessions
  run-Kept ss w = run-rel state lib tokens (λ actor. laws (kept-Core actor)) ss w
