-- ===== src/App.antt =====
-- src/routes/mod.rs (AppState) and the way handlers run: a handler takes the world and gives its
-- result and the new world, so what it did before an error stays done. The environment's choices
-- (the instant, the random ids and tags, how long a call of the store took) are part of the world.
-- A request is served at one instant.
pub mod Inversion
use ovp_data_api.Base.{
  ℕ, ◌+◌, Text, Uuid, DateTime, Option, none, some, List, [], ◌∷◌, ◌++◌, Result, ok, err, Json,
}
use ovp_data_api.Error.{AppError, from_pseudo_id_error}
use ovp_data_api.Ids.{ETag, PseudoIdError}
use ovp_data_api.Events.{Event}
use ovp_data_api.Metrics.{Metrics}
use ovp_data_api.Metrics
use ovp_data_api.Storage.{ObjectStore}
use ovp_data_api.Db.{Db, Stmt}
use ovp_data_api.Db.AuditLog
use ovp_data_api.Db.AuditLog.{Entry}

-- AppState, but for what a request changes, with the printing of the libraries' types. Durations
-- are in seconds.
pub record AppState (St : Type 0) : Type 0 where
  pub store : ObjectStore St
  pub shared_secret : Text
  pub resume_ttl : ℕ
  pub ws_queue_depth : ℕ
  pub heartbeat_reap : ℕ
  pub uuid_to_string : Uuid → Text
  pub datetime_to_json : DateTime → Json

-- `events` is what was sent to the bus, oldest first.
pub record World (St : Type 0) : Type 0 where
  pub db : Db
  pub objects : St
  pub events : List Event
  pub metrics : Metrics
  pub now : DateTime
  pub elapsed : ℕ
  pub uuids : ℕ → Uuid
  pub etags : ℕ → ETag
  pub drawn : ℕ

abbrev pub Handler : Type 0 → Type 0 → Type 0
Handler St A = World St → Result AppError A × World St

module _ {St A : Type 0} where
  abbrev pub pure : A → Handler St A
  pure a w = (ok a, w)

  abbrev pub fail : AppError → Handler St A
  fail e w = (err e, w)

  abbrev pub lift : Result AppError A → Handler St A
  lift r w = (r, w)

  abbrev pub checked : Result PseudoIdError A → Handler St A
  checked (ok a) w = (ok a, w)
  checked (err e) w = (err (from_pseudo_id_error e), w)

  abbrev pub stored : Result AppError (A × Db) → Handler St A
  stored (ok (a, db)) w = (ok a, record w { db = db })
  stored (err e) w = (err e, w)

  -- A statement on the pool or in the open transaction.
  abbrev pub exec : Stmt A → Handler St A
  exec s w = stored (s w.now w.db) w

  -- A transaction that fails is rolled back: its writes are lost, its other effects are not.
  abbrev pub ended : Db → Result AppError A × World St → Result AppError A × World St
  ended before (ok a, w) = (ok a, w)
  ended before (err e, w) = (err e, record w { db = before })

  abbrev pub transaction : Handler St A → Handler St A
  transaction body w = ended w.db (body w)

module _ {St A B : Type 0} where
  abbrev pub bound :
      Result AppError A × World St → (A → Handler St B) → Result AppError B × World St
  bound (ok a, w) f = f a w
  bound (err e, w) f = (err e, w)

infixl 5 ◌>>=◌ ◌>>◌
abbrev pub ◌>>=◌ : {St A B : Type 0} → Handler St A → (A → Handler St B) → Handler St B
◌>>=◌ m f w = bound (m w) f

abbrev pub ◌>>◌ : {St B : Type 0} → Handler St (Unit {0}) → Handler St B → Handler St B
m >> k = m >>= λ _. k

module _ {St : Type 0} where
  abbrev pub utc_now : Handler St DateTime
  utc_now w = (ok w.now, w)

  abbrev pub elapsed : Handler St ℕ
  elapsed w = (ok w.elapsed, w)

  -- gen_random_uuid()
  abbrev pub new_uuid : Handler St Uuid
  new_uuid w = (ok (w.uuids w.drawn), record w { drawn = w.drawn + 1 })

  -- ETag::new_random()
  abbrev pub new_etag : Handler St ETag
  new_etag w = (ok (w.etags w.drawn), record w { drawn = w.drawn + 1 })

  -- `let _ = state.events.send(event)`
  abbrev pub send : Event → Handler St (Unit {0})
  send event w = (ok tt, record w { events = w.events ++ event ∷ [] })

  abbrev pub inc_counter : Text → ℕ → Handler St (Unit {0})
  inc_counter name by w = (ok tt, record w { metrics = Metrics.inc_counter w.metrics name by })

  abbrev pub observe_histogram : Text → ℕ → Handler St (Unit {0})
  observe_histogram name nanos w =
      (ok tt, record w { metrics = Metrics.observe_histogram w.metrics name nanos })

  -- `append` and `append_tx` with the id that the table's default draws
  abbrev pub audit : Entry → Handler St (Unit {0})
  audit e = do id ← new_uuid; exec (AuditLog.append id e)

  -- A call of the store that writes.
  abbrev pub on_store : {A : Type 0} → (St → Result AppError A × St) → Handler St A
  on_store call w = let (r, objects) = call w.objects in (r, record w { objects = objects })

  abbrev pub read_store : {A : Type 0} → (St → Result AppError A) → Handler St A
  read_store call w = (call w.objects, w)
