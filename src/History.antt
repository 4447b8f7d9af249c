-- ===== src/History.antt =====
-- The service over a history: requests, ticks of the reaper (src/auth/reaper.rs) and the passing of
-- time, one after another.
pub mod Evolve
pub mod Laws
pub mod Sessions
pub mod Participants
pub mod Chunks
pub mod Mute
pub mod Users
pub mod UniformCrud
pub mod Serve
pub mod Frame
pub mod Run
pub mod Log
pub mod Tombstones
pub mod Valid
use ovp_data_api.Base.{ℕ, ◌+◌, List, [], ◌∷◌}
use ovp_data_api.App.{AppState, World}
use ovp_data_api.Auth.{TokenLib, reap_tick}
use ovp_data_api.Router.{Request, serve}
use ovp_data_api.Routes.Chunks.Headers.{HeaderMap, RequestLib}

pub data Step : Type 0 where
  request : HeaderMap → Request → Step
  reaper : Step
  -- microseconds that pass, and how long the next call of the store takes
  wait : ℕ → ℕ → Step

module _ {St : Type 0} (state : AppState St) (lib : RequestLib) (tokens : TokenLib) where
  unfoldable pub step : Step → World St → World St
  unfolding serve reap_tick
  step (request headers r) w = (serve state lib tokens headers r w).1
  step reaper w = reap_tick state.heartbeat_reap w
  step (wait d e) w = record w { now = w.now + d; elapsed = e }

  unfoldable pub run : List Step → World St → World St
  unfolding step
  run [] w = w
  run (s ∷ ss) w = run ss (step s w)
