-- ===== src/Auth/Tokens.antt =====
-- src/routes/auth.rs, src/auth/reaper.rs and src/db/service_sessions.rs: how long a token lasts.
use ovp_data_api.Base.{
  ℤ, pos, negsuc, ℕ, ◌+◌, ◌≤◌, Text, DateTime, [], ◌∷◌, ◌++◌, true, false, select,
  select-delete_other, delete, first, Option, none, some, inl, inr, Result, ok, ◌≡◌, refl, ap, ◌∙◌,
  arith,
}
use ovp_data_api.Error.{AppError}
use ovp_data_api.App.{AppState, World, stored}
use ovp_data_api.Auth.{TokenLib, hash_token, service_name, named, reap_tick}
use ovp_data_api.Auth.Guard.{bearer-cases}
use ovp_data_api.Db.{Db, ServiceSession}
use ovp_data_api.Db.ServiceSessions
use ovp_data_api.Db.ServiceSessions.{as_i64, is_alive, is_stale, lookup_alive, reap_stale}
use ovp_data_api.History.{step, reaper, wait}
use ovp_data_api.Routes.Chunks.Headers.{HeaderMap, RequestLib}

-- The times of the look-up and of the tick do not meet in one row.
after-before :
    (n : ℤ) (earlier now at : DateTime)
    → earlier ≤ now
    → ServiceSessions.after n now at ≡ true
    → ServiceSessions.before n earlier at ≡ false
after-before (pos n) earlier now at h e = ground arith
after-before (negsuc n) earlier now at h e = ground arith

alive-fresh :
    (hash : Text) (window : ℕ) (earlier now : DateTime) (s : ServiceSession)
    → earlier ≤ now
    → is_alive hash window now s ≡ true
    → is_stale window earlier s ≡ false
alive-fresh hash window earlier now s h e =
    after-before (as_i64 window) earlier now s.last_seen_at h (ground arith)

abbrev answer : Option ServiceSession → Db → Result AppError (Option Text × Db)
answer found db = elim found [ none ↦ ok (none, db) | some s ↦ ok (some s.service_name, db) ]

module _ {St : Type 0} (state : AppState St) (lib : RequestLib) (tokens : TokenLib) where
  answered :
      (found : Option ServiceSession) (v w : World St)
      → (named state lib tokens (stored (answer found v.db) v)).0
        ≡ (named state lib tokens (stored (answer found w.db) w)).0
  answered none v w = refl
  answered (some s) v w = refl

  -- After a tick of the reaper and any time in which nothing else happens, the middleware takes a
  -- request for that of the same service as it would without the tick, or turns it away with the
  -- same error, whichever service sessions the tick deleted and whatever the window.
  pub service_name-reaper :
      (headers : HeaderMap) (d e : ℕ) (w : World St)
      → (service_name state lib tokens headers
          (step state lib tokens (wait d e) (step state lib tokens reaper w))).0
        ≡ (service_name state lib tokens headers (step state lib tokens (wait d e) w)).0
  unfolding step reap_tick reap_stale service_name lookup_alive
  service_name-reaper headers d e w = elim (bearer-cases lib headers) [
    | inl none_given ↦ rw none_given refl
    | inr (token, given) ↦
        let hash = hash_token tokens token in
        let later = step state lib tokens (wait d e) w in
        let alive = is_alive hash state.heartbeat_reap (w.now + d) in
        rw given (
          answered
            (first
              (select alive (delete (is_stale state.heartbeat_reap w.now) w.db.service_sessions)))
            (step state lib tokens (wait d e) (step state lib tokens reaper w)) later
          ∙ ap (λ rows. (named state lib tokens (stored (answer (first rows) later.db) later)).0)
              (select-delete_other (is_stale state.heartbeat_reap w.now) alive w.db.service_sessions
                (λ s. alive-fresh hash state.heartbeat_reap w.now (w.now + d) s (omega arith))))
  ]

  -- The token that a draw gives, and the row that `authenticate` inserts for it.
  abbrev drawn_token : World St → Text
  drawn_token w = tokens.hex_encode (tokens.fill_bytes w.drawn)

  abbrev drawn_row : Text → World St → ServiceSession
  drawn_row name w = record {
    id = w.uuids (w.drawn + 1);
    service_name = name;
    token_hash = hash_token tokens (drawn_token w);
    created_at = w.now;
    last_seen_at = w.now;
  }

  abbrev authenticated : Text → World St → World St
  authenticated name w = record w {
    drawn = w.drawn + 1 + 1;
    db = record w.db { service_sessions = w.db.service_sessions ++ drawn_row name w ∷ [] };
  }
