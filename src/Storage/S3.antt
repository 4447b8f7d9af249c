-- ===== src/Storage/S3.antt =====
-- src/storage/s3.rs: the store over a bucket of the S3 client, which is a library's.
pub mod Deletion
use ovp_data_api.Base.{
  ℕ, ◌+◌, ◌%◌, ◌^◌, ◌==◌, ltb, leb, not, ◌&&◌, ◌||◌, Bool, Text, List, [], ◌∷◌, Result, ok, err,
  if◌then◌else◌,
}
use ovp_data_api.Error.{AppError, not_found, s3_error}
use ovp_data_api.Storage.{ObjectStore}

pub data ClientError : Type 0 where
  failed : ClientError

-- The calls of the client over the state `St` of the service: the code of the response, or a
-- failure of the call.
pub record Bucket (St : Type 0) : Type 0 where
  pub put_object : Text → List ℕ → St → Result ClientError ℕ × St
  pub get_object : Text → St → Result ClientError (ℕ × List ℕ)
  pub delete_object : Text → St → Result ClientError ℕ × St
  pub head_object : Text → St → Result ClientError ℕ

unfoldable pub ok_status : ℕ → Bool
ok_status code = leb 200 code && ltb code 300

module _ {St : Type 0} (bucket : Bucket St) where
  abbrev put_result : Result ClientError ℕ → Result AppError (Unit {0})
  unfolding s3_error
  put_result (err e) = err s3_error
  put_result (ok code) = if not (ok_status code) then err s3_error else ok tt

  unfoldable pub put : Text → List ℕ → St → Result AppError (Unit {0}) × St
  unfolding ok_status s3_error
  put key body s = let (r, s') = bucket.put_object key body s in (put_result r, s')

  abbrev get_result : Result ClientError (ℕ × List ℕ) → Result AppError (List ℕ)
  unfolding s3_error
  get_result (err e) = err s3_error
  get_result (ok (code, bytes)) =
      if ok_status code then ok bytes else if code == 404 then err not_found else err s3_error

  unfoldable pub get : Text → St → Result AppError (List ℕ)
  unfolding ok_status s3_error
  get key s = get_result (bucket.get_object key s)

  -- A deletion of one key that counts.
  abbrev pub gone : Result ClientError ℕ → Bool
  gone (err e) = Bool.false
  gone (ok code) = ok_status code || code == 404

  -- the loop of `delete_many`, which ends at the first key that fails
  unfoldable pub delete_keys : List Text → ℕ → St → Result AppError ℕ × St
  unfolding ok_status s3_error
  delete_keys [] n s = (ok n, s)
  delete_keys (k ∷ ks) n s =
      let (r, s') = bucket.delete_object k s in
      let rest = delete_keys ks ((n + 1) % 2 ^ 32) s' in if gone r then rest else (err s3_error, s')

  unfoldable pub delete_many : List Text → St → Result AppError ℕ × St
  unfolding delete_keys
  delete_many keys s = delete_keys keys 0 s

  abbrev head_result : Result ClientError ℕ → Result AppError (Unit {0})
  unfolding s3_error
  head_result (err e) = err s3_error
  head_result (ok code) =
      if ok_status code || (code == 403 || code == 404) then ok tt else err s3_error

  unfoldable pub head_bucket : St → Result AppError (Unit {0})
  unfolding ok_status s3_error
  head_bucket s = head_result (bucket.head_object (b'/' ∷ []) s)

  -- impl ObjectStore for S3Store
  unfoldable pub s3_store : ObjectStore St
  unfolding put get delete_many head_bucket
  s3_store = record { put = put; get = get; delete_many = delete_many; head_bucket = head_bucket }
