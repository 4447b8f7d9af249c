-- ===== src/Start/Running.antt =====
-- src/main.rs: what holds of a service that has started.
use ovp_data_api.Base.{
  Json, Text, Result, sym, ap, ◌∙◌, ◌^◌, ◌<◌, text, List, some, none, ok, err, ◌≡◌, refl, arith,
  Option, inl, inr, Bool-cases, text_eq_iff, true,
}
use ovp_data_api.Config.{Env, Config, ConfigError, from_env}
use ovp_data_api.Config.Bounds.{from_env-ok}
use ovp_data_api.App.{AppState, World}
use ovp_data_api.App.Inversion
use ovp_data_api.Auth.{TokenLib}
use ovp_data_api.Db.{Db}
use ovp_data_api.History.{Step, run}
use ovp_data_api.History.Valid.{IsValid}
use ovp_data_api.History.Valid.Runs.{run-IsValid}
use ovp_data_api.Routes.Auth.{
  AuthRequest, AuthResponse, GrantRequest, authenticate, grant, require_secret,
}
use ovp_data_api.Routes.Chunks.Headers.{RequestLib}
use ovp_data_api.Start.{
  Platform, Service, main, connect, run_migrations, assemble, listening, configured, or_else,
  StartError, connection, migration, ◌>>=◌,
}

>>=-ok :
    {A B : Type 0} (r : Result StartError A) (f : A → Result StartError B) (b : B)
    → (r >>= f) ≡ ok b
    → (a : A) × (r ≡ ok a) × (f a ≡ ok b)
>>=-ok (ok a) f b h = (a, refl, h)
>>=-ok (err e) f b h = cc

or_else-ok : {A : Type 0} (e : StartError) (o : Option A) (a : A) → or_else e o ≡ ok a → o ≡ some a
or_else-ok e none a h = cc
or_else-ok e (some b) a h = ground arith

configured-ok : (r : Result ConfigError Config) (c : Config) → configured r ≡ ok c → r ≡ ok c
configured-ok (ok d) c h = ground arith
configured-ok (err e) c h = cc

module _ {St : Type 0} (platform : Platform St) (env : Env) (s : Service St) where
  listening-ok :
      (c : Config) (t : Service St)
      → listening platform c t ≡ ok s
      → (platform.binds c.bind_addr ≡ true) × (s ≡ t)
  listening-ok c t h = elim (Bool-cases (platform.binds c.bind_addr)) [
    | inl e ↦ (e, ground arith)
    | inr e ↦ ground arith
  ]

  -- Where the start succeeds every step of it has.
  main-ok :
      main platform env ≡ ok s
      → (c : Config) × (db : Db) × (pool : Db) × (from_env env ≡ ok c)
        × (platform.migrates pool ≡ some db)
        × (s ≡ assemble platform c db)
  unfolding main connect run_migrations
  main-ok h =
      let (c, hc, h₁) = >>=-ok (configured (from_env env)) _ s h in
      let (pool, hp, h₂) = >>=-ok (or_else connection (platform.connects c.database_url)) _ s h₁ in
      let (db, hd, h₃) = >>=-ok (or_else migration (platform.migrates pool)) _ s h₂ in
      (
        c,
        db,
        pool,
        configured-ok (from_env env) c hc,
        or_else-ok migration (platform.migrates pool) db hd,
        (listening-ok c (assemble platform c db) h₃).1,
      )

  -- Where the migrator leaves a database that meets the constraints of its tables, a service that
  -- has started meets them after any history of requests, ticks of its reaper and waits. The secret
  -- that it asks for is that of its environment; and the window of its service sessions and the TTL of
  -- a resume fit 64 bits.
  pub main-IsValid :
      main platform env ≡ ok s
      → ((before db : Db) → platform.migrates before ≡ some db → IsValid db)
      → (lib : RequestLib) (tokens : TokenLib) (ss : List Step)
      → IsValid (run s.state lib tokens ss s.world).db
        × (env (text "SHARED_SECRET") ≡ some s.state.shared_secret)
        × (s.state.heartbeat_reap < 2 ^ 64)
        × (s.state.resume_ttl < 2 ^ 64)
  unfolding assemble
  main-IsValid h migrated lib tokens ss =
      let (c, db, pool, hc, hd, e) = main-ok h in
      let numbers = from_env-ok env c hc in
      (
        run-IsValid s.state lib tokens ss s.world (rw e (migrated pool db hd)),
        rw e numbers.5,
        rw e (ground arith),
        rw e (ground arith),
      )

module _ {St : Type 0} (state : AppState St) where
  require_secret-ok :
      (t : Text) (u : Unit {0}) (w w' : World St)
      → require_secret state t w ≡ (ok u, w')
      → t ≡ state.shared_secret
  require_secret-ok t u w w' h = ground (arith, text_eq_iff t state.shared_secret)

module _ {St : Type 0} (platform : Platform St) (env : Env) (s : Service St) where
  knows_secret :
      main platform env ≡ ok s
      → (t : Text) → t ≡ s.state.shared_secret
      → env (text "SHARED_SECRET") ≡ some t
  unfolding assemble
  knows_secret h t same =
      let (c, db, pool, hc, hd, e) = main-ok platform env s h in
      let secret : c.shared_secret ≡ t = sym (same ∙ ap (λ x. x.state.shared_secret) e) in
      (from_env-ok env c hc).5 ∙ ap some secret

  -- Whatever has happened since a service started, it gives a token to a service only for the
  -- secret that its environment held at the start.
  pub authenticate-shared_secret :
      main platform env ≡ ok s
      → (lib : RequestLib) (tokens : TokenLib) (w w' : World St) (req : AuthRequest)
        (res : AuthResponse)
      → authenticate s.state lib tokens req w ≡ (ok res, w')
      → env (text "SHARED_SECRET") ≡ some req.shared_secret
  unfolding authenticate
  authenticate-shared_secret h lib tokens w w' req res ran =
      let (u, w₁, asked, rest) = Inversion.>>=-ok _ _ res w' ran in
      knows_secret h req.shared_secret (require_secret-ok s.state req.shared_secret u w w₁ asked)

  -- Nor does it make anyone an admin, or take that away, for another.
  pub grant-shared_secret :
      main platform env ≡ ok s
      → (w w' : World St) (req : GrantRequest) (res : Json) → grant s.state req w ≡ (ok res, w')
      → env (text "SHARED_SECRET") ≡ some req.shared_secret
  unfolding grant
  grant-shared_secret h w w' req res ran =
      let (u, w₁, asked, rest) = Inversion.>>=-ok _ _ res w' ran in
      knows_secret h req.shared_secret (require_secret-ok s.state req.shared_secret u w w₁ asked)
