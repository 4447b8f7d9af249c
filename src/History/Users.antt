-- ===== src/History/Users.antt =====
-- src/routes/users.rs, src/routes/auth.rs and src/routes/admin.rs: the handlers keep what the
-- statements keep.
use ovp_data_api.Base.{
  Text, text_eq, Bool, true, false, Bool-cases, inl, inr, Option, none, some, refl, Result, ok, err,
  select, first,
}
use ovp_data_api.Error.{AppError}
use ovp_data_api.Ids.{PseudoId}
use ovp_data_api.Ids
use ovp_data_api.App.{AppState, Handler, World}
use ovp_data_api.Auth.{TokenLib, hash_token, extract_bearer, generate_token, service_name, named}
use ovp_data_api.Auth as Middleware
use ovp_data_api.Db.{Db, ServiceSession}
use ovp_data_api.Db.AuditLog
use ovp_data_api.Db.DisplayNames
use ovp_data_api.Db.ServiceSessions
use ovp_data_api.Db.Users
use ovp_data_api.History.Evolve.{
  Evolution, Steps, Moves, Moved, Later, given, runs, within, checks, after, next, reading-Moved,
}
use ovp_data_api.History.Laws.{Laws}
use ovp_data_api.Routes.Auth as Auth
use ovp_data_api.Routes.Chunks.Headers.{HeaderMap, RequestLib}
use ovp_data_api.Routes.Users as Handlers

looked :
    (E : Evolution) (db : Db) (found : Option ServiceSession)
    → Moved E.rel db (
        let r : Result AppError (Option Text × Db) = elim found [
          | none ↦ ok (none, db)
          | some s ↦ ok (some s.service_name, db)
        ] in
        r)
looked E db none = E.stays db
looked E db (some s) = E.stays db

module _ {E : Evolution} where
  get-Steps : (p : PseudoId) → Steps E (Users.get p)
  unfolding Users.get
  get-Steps p = record { step = λ now db. reading-Moved E db _ }

  list-Steps : (p : PseudoId) → Steps E (DisplayNames.list p)
  unfolding DisplayNames.list
  list-Steps p = record { step = λ now db. E.stays db }

  details-Steps : Steps E Users.list_all_with_details
  unfolding Users.list_all_with_details
  details-Steps = record { step = λ now db. E.stays db }

  sessions-Steps : (p : PseudoId) → Steps E (Users.list_sessions_for_user p)
  unfolding Users.list_sessions_for_user
  sessions-Steps p = record { step = λ now db. E.stays db }

  query-Steps : (f : AuditLog.QueryFilter) → Steps E (AuditLog.query f)
  unfolding AuditLog.query
  query-Steps f = record { step = λ now db. reading-Moved E db _ }

  lookup-Steps : (hash : Text) (reap : _) → Steps E (ServiceSessions.lookup_alive hash reap)
  unfolding ServiceSessions.lookup_alive
  lookup-Steps hash reap = record {
    step = λ now db.
        looked E db (first (select (ServiceSessions.is_alive hash reap now) db.service_sessions));
  }

  module _ {St : Type 0} (state : AppState St) where
    pub fetch_user-Moves :
        (pid : Text) → Moves E (let h : Handler St _ = Handlers.fetch_user pid in h)
    unfolding Handlers.fetch_user
    fetch_user-Moves pid b w h = after (checks (Ids.new pid) w h) λ p w₁ h₁.
        after (runs (get-Steps p) w₁ h₁)
          λ user w₂ h₂. after (runs (list-Steps p) w₂ h₂) λ aliases w₃ h₃. record { later = h₃ }

    pub fetch_admin-Moves :
        (pid : Text) → Moves E (let h : Handler St _ = Handlers.fetch_admin_user_detail pid in h)
    unfolding Handlers.fetch_admin_user_detail
    fetch_admin-Moves pid b w h = after (checks (Ids.new pid) w h) λ p w₁ h₁.
        after (runs (get-Steps p) w₁ h₁) λ user w₂ h₂.
          after (runs (list-Steps p) w₂ h₂)
            λ aliases w₃ h₃. after (runs (sessions-Steps p) w₃ h₃) λ ss w₄ h₄. record { later = h₄ }

    pub list_display-Moves :
        (pid : Text) → Moves E (let h : Handler St _ = Handlers.list_display pid in h)
    unfolding Handlers.list_display
    list_display-Moves pid b w h =
        after (checks (Ids.new pid) w h) λ p w₁ h₁. runs (list-Steps p) w₁ h₁

    pub list_admin-Moves : Moves E (let h : Handler St _ = Handlers.list_admin_users in h)
    unfolding Handlers.list_admin_users
    list_admin-Moves b w h = runs details-Steps w h

    pub query-Moves : (f : AuditLog.QueryFilter) → Moves E (Auth.query state f)
    unfolding Auth.query
    query-Moves f b w h = runs (query-Steps f) w h

    named-Later :
        (lib : RequestLib) (tokens : TokenLib) (b : Db)
        (x : Result AppError (Option Text) × World St)
        → Later E b x
        → Later E b (named state lib tokens x)
    named-Later lib tokens b (ok none, w) h = record { later = h.later }
    named-Later lib tokens b (ok (some n), w) h = record { later = h.later }
    named-Later lib tokens b (err e, w) h = record { later = h.later }

    pub service_name-Moves :
        (lib : RequestLib) (tokens : TokenLib) (headers : HeaderMap)
        → Moves E (service_name state lib tokens headers)
    unfolding Middleware.service_name
    service_name-Moves lib tokens headers b w h =
        after (given (extract_bearer lib headers) w h) λ token w₁ h₁.
          named-Later lib tokens b _
            (runs (lookup-Steps (hash_token tokens token) state.heartbeat_reap) w₁ h₁)

    require_secret-Moves :
        (s : Text) (b : Db) (w : World St)
        → E.rel b w.db
        → Later E b (Auth.require_secret state s w)
    require_secret-Moves s b w h = elim (Bool-cases (text_eq s state.shared_secret)) [
      | inl e ↦ rw e (record { later = h })
      | inr e ↦ rw e (record { later = h })
    ]

    require_touched-Moves :
        (lib : RequestLib) (tokens : TokenLib) (t : Bool) (b : Db) (w : World St)
        → E.rel b w.db
        → Later E b (Auth.require_touched state lib tokens t w)
    require_touched-Moves lib tokens true b w h = record { later = h }
    require_touched-Moves lib tokens false b w h = record { later = h }

module _ {E : Evolution} {actor : Text} (laws : Laws E actor) {St : Type 0} where
  pub upsert_user-Moves :
      (u : Users.UpsertUser) → Moves E (let h : Handler St _ = Handlers.upsert_user actor u in h)
  unfolding Handlers.upsert_user
  upsert_user-Moves u b w h =
      after (runs (laws.user_upsert u) w h)
        λ user w₁ h₁. next (runs (laws.audit_append _ _ refl) _ h₁) λ w₂ h₂. record { later = h₂ }

  pub post_display-Moves :
      (pid : Text) (d : DisplayNames.UpsertDisplayName)
      → Moves E (let h : Handler St _ = Handlers.post_display actor pid d in h)
  unfolding Handlers.post_display
  post_display-Moves pid d b w h = after (checks (Ids.new pid) w h) λ p w₁ h₁.
      after (runs (laws.user_upsert _) w₁ h₁) λ user w₂ h₂.
        after (runs (laws.alias_upsert p d) w₂ h₂)
          λ row w₃ h₃. next (runs (laws.audit_append _ _ refl) _ h₃) λ w₄ h₄. record { later = h₄ }

  pub patch_user-Moves :
      (pid : Text) (r : Handlers.PatchUserRequest)
      → Moves E (let h : Handler St _ = Handlers.patch_user actor pid r in h)
  unfolding Handlers.patch_user
  patch_user-Moves pid r b w h = after (checks (Ids.new pid) w h) λ p w₁ h₁. within w₁ _ h₁ (
      after (runs (laws.user_admin p r.is_admin) w₁ h₁)
        λ user w₂ h₂. next (runs (laws.audit_append _ _ refl) _ h₂) λ w₃ h₃. record { later = h₃ })

  module _ (state : AppState St) (lib : RequestLib) (tokens : TokenLib) where
    pub authenticate-Moves : (r : Auth.AuthRequest) → Moves E (Auth.authenticate state lib tokens r)
    unfolding Auth.authenticate
    authenticate-Moves r b w h = next (require_secret-Moves state r.shared_secret b w h) λ w₁ h₁.
        after (runs (laws.service_insert _ r.service_name _) _ h₁) λ s w₂ h₂. record { later = h₂ }

    pub heartbeat-Moves : (headers : HeaderMap) → Moves E (Auth.heartbeat state lib tokens headers)
    unfolding Auth.heartbeat
    heartbeat-Moves headers b w h = after (given (extract_bearer lib headers) w h) λ token w₁ h₁.
        after (runs (laws.service_touch (hash_token tokens token)) w₁ h₁) λ t w₂ h₂.
          next (require_touched-Moves state lib tokens t b w₂ h₂) λ w₃ h₃. record { later = h₃ }

module _ {E : Evolution} (laws : Laws E Auth.admin_bootstrap) {St : Type 0}
    (state : AppState St) where
  grant_tx-Moves : (r : Auth.GrantRequest) → Moves E (Auth.grant_tx state r)
  unfolding Auth.grant_tx
  grant_tx-Moves r b w h =
      after (runs (laws.user_admin r.pseudo_id r.is_admin) w h)
        λ user w₁ h₁. next (runs (laws.audit_append _ _ refl) _ h₁) λ w₂ h₂. record { later = h₂ }

  pub grant-Moves : (r : Auth.GrantRequest) → Moves E (Auth.grant state r)
  unfolding Auth.grant
  grant-Moves r b w h =
      next (require_secret-Moves state r.shared_secret b w h) λ w₁ h₁.
        after (within w₁ _ h₁ (grant_tx-Moves r b w₁ h₁)) λ user w₂ h₂. record { later = h₂ }
