-- ===== src/History/Run.antt =====
-- A relation that the statements keep holds along every history.
use ovp_data_api.Base.{Text, List, [], ◌∷◌}
use ovp_data_api.App.{AppState, World}
use ovp_data_api.Auth.{TokenLib, reap_tick}
use ovp_data_api.Db.{Db}
use ovp_data_api.History.{Step, request, reaper, wait, step, run}
use ovp_data_api.History.Evolve.{Evolution, runs}
use ovp_data_api.History.Laws.{Laws}
use ovp_data_api.History.Serve.{serve-Moves}
use ovp_data_api.Routes.Chunks.Headers.{RequestLib}

module _ {St : Type 0} (state : AppState St) (lib : RequestLib) (tokens : TokenLib) {E : Evolution}
    (laws : (actor : Text) → Laws E actor) where
  step-rel :
      (s : Step) (b : Db) (w : World St) → E.rel b w.db → E.rel b (step state lib tokens s w).db
  unfolding step reap_tick
  step-rel (request headers r) b w h = (serve-Moves state lib tokens headers laws r b w h).later
  step-rel reaper b w h = (runs ((laws []).service_reap state.heartbeat_reap) w h).later
  step-rel (wait d e) b w h = h

  run-from :
      (ss : List Step) (b : Db) (w : World St)
      → E.rel b w.db
      → E.rel b (run state lib tokens ss w).db
  unfolding run
  run-from [] b w h = h
  run-from (s ∷ ss) b w h = run-from ss b (step state lib tokens s w) (step-rel s b w h)

  pub run-rel : (ss : List Step) (w : World St) → E.rel w.db (run state lib tokens ss w).db
  run-rel ss w = run-from ss w.db w (E.stays w.db)
