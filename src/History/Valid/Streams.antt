-- ===== src/History/Valid/Streams.antt =====
-- src/db/chunks.rs over a history: what the listing of a stream gives.
use ovp_data_api.Base.{Uuid, List, ok, ◌≡◌}
use ovp_data_api.Ids.{PseudoId}
use ovp_data_api.App.{AppState, World}
use ovp_data_api.Auth.{TokenLib}
use ovp_data_api.Db.{ChunkRow}
use ovp_data_api.Db.Chunks
use ovp_data_api.Db.Chunks.Listing.{IsStream, list-IsStream}
use ovp_data_api.History.{Step, run}
use ovp_data_api.History.Valid.{IsValid}
use ovp_data_api.History.Valid.Runs.{run-IsValid}
use ovp_data_api.Routes.Chunks.Headers.{RequestLib}

module _ {St : Type 0} (state : AppState St) (lib : RequestLib) (tokens : TokenLib) where
  -- After any history of a valid database the list of a stream is its chunks, each once, in strictly
  -- ascending order of their numbers, and listing changes nothing.
  pub list_ascends :
      (ss : List Step) (id : Uuid) (p : PseudoId) (w : World St)
      → IsValid w.db
      → let w' = run state lib tokens ss w in
        (rows : List ChunkRow) × (Chunks.list id p w'.now w'.db ≡ ok (rows, w'.db))
        × IsStream id p w'.db rows
  list_ascends ss id p w v =
      let w' = run state lib tokens ss w in
      list-IsStream id p w'.now w'.db (run-IsValid state lib tokens ss w v).chunk_numbers
