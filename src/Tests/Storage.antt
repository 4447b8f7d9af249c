-- ===== src/Tests/Storage.antt =====
-- Tests of the stores, the S3 store over a bucket that confirms every deletion of a key other than `locked`.
use ovp_data_api.Base.{
  unwrap_or, ℕ, Text, text, text_eq, text_eq_refl, Option, none, some, List, [], ◌∷◌, Result, ok,
  err, ◌≡◌, refl, arith, ◌%◌, ◌^◌, if◌then◌else◌, any,
}
use ovp_data_api.Error.{not_found}
use ovp_data_api.Storage.Maps.{Op, put, IsStoring, Answers, apply_all, mem_store-s3_store}
use ovp_data_api.Storage.Mem
use ovp_data_api.Storage.Mem.{MemStore, mem_store}
use ovp_data_api.Storage.S3
use ovp_data_api.Storage.S3.{Bucket, ClientError, s3_store, get, delete_many}
use ovp_data_api.Storage.S3.Deletion.{IsConsistent, get-delete_many_ok}

abbrev Objects : Type 0
Objects = Text → Option (List ℕ)

abbrev locked : Text
locked = text "locked"

abbrev read : Option (List ℕ) → Result ClientError (ℕ × List ℕ)
read none = ok (404, [])
read (some b) = ok (200, b)

abbrev bucket : Bucket Objects
bucket = record {
  put_object = λ k b s. (ok 200, λ j. if text_eq k j then some b else s j);
  get_object = λ k s. read (s k);
  delete_object = λ k s.
      if text_eq k locked then (ok 403, s) else (ok 204, λ j. if text_eq k j then none else s j);
  head_object = λ k s. ok 404;
}

bucket-IsConsistent : IsConsistent bucket
unfolding ovp_data_api.Storage.S3.ok_status
bucket-IsConsistent = record {
  page = [];
  confirmed = λ k s h. ground (arith, text_eq_refl k);
  others = λ k j s h. ground arith;
}

abbrev objects : Objects
objects k =
    if text_eq k (text "a")
    then some (1 ∷ [])
    else if text_eq k (text "b")
    then some (2 ∷ [])
    else none

abbrev left : Objects
left = (delete_many bucket (text "a" ∷ text "c" ∷ []) objects).1

both : delete_many bucket (text "a" ∷ text "c" ∷ []) objects ≡ (ok 2, left)
unfolding delete_many text_eq
both = refl

get-delete_many_ok_example :
    (2 ≡ 2 % 2 ^ 32)
    × ((j : Text)
        → get bucket j left ≡ (
            if any (λ k. text_eq k j) (text "a" ∷ text "c" ∷ [])
            then err not_found
            else get bucket j objects))
get-delete_many_ok_example =
    get-delete_many_ok bucket bucket-IsConsistent (text "a" ∷ text "c" ∷ []) objects left 2 both

bucket-IsStoring : IsStoring bucket
unfolding ovp_data_api.Storage.S3.ok_status
bucket-IsStoring = record {
  stored = λ k b s h. ground (arith, text_eq_refl k);
  others = λ k j b s h e. ground arith;
}

abbrev ops : List Op
ops =
    put (text "a") (1 ∷ [])
    ∷ Op.delete_many (text "a" ∷ text "c" ∷ [])
    ∷ put (text "d") (4 ∷ [])
    ∷ []

abbrev nothing : Objects
nothing k = none

abbrev s3_end : Objects
s3_end = unwrap_or (apply_all (s3_store bucket) ops nothing) nothing

abbrev mem_end : MemStore
mem_end = unwrap_or (apply_all mem_store ops Mem.new) Mem.new

s3_ran : apply_all (s3_store bucket) ops nothing ≡ some s3_end
unfolding s3_store text_eq
s3_ran = refl

mem_ran : apply_all mem_store ops Mem.new ≡ some mem_end
unfolding mem_store
mem_ran = refl

s3_store-Answers : Answers (s3_store bucket) nothing nothing
unfolding s3_store
s3_store-Answers k = refl

mem_store-Answers : Answers mem_store Mem.new nothing
unfolding mem_store Mem.new
mem_store-Answers k = refl

mem_store-s3_store_example : S3.get bucket (text "d") s3_end ≡ Mem.get (text "d") mem_end
mem_store-s3_store_example =
    mem_store-s3_store bucket bucket-IsStoring bucket-IsConsistent ops nothing s3_end Mem.new
      mem_end nothing s3_store-Answers mem_store-Answers s3_ran mem_ran (text "d")
