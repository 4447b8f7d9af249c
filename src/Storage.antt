-- ===== src/Storage.antt =====
-- src/storage/: the object store that the handlers call, and the store in memory.
pub mod Mem
pub mod S3
pub mod Maps
use ovp_data_api.Base.{ℕ, Text, List, Result}
use ovp_data_api.Error.{AppError}

-- The trait ObjectStore over the state `St` of a store. A call gives its result and the new state,
-- also where it fails. `head_bucket` reads only.
pub record ObjectStore (St : Type 0) : Type 0 where
  pub put : Text → List ℕ → St → Result AppError (Unit {0}) × St
  pub get : Text → St → Result AppError (List ℕ)
  pub delete_many : List Text → St → Result AppError ℕ × St
  pub head_bucket : St → Result AppError (Unit {0})
