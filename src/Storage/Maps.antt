-- ===== src/Storage/Maps.antt =====
-- src/storage/: both stores do what a map from keys to bytes does.
use ovp_data_api.Base.{
  ℕ, Bool, true, false, Text, text_eq, Option, none, some, List, [], ◌∷◌, any, Result, ok, err,
  if◌then◌else◌, ◌≡◌, sym, ◌∙◌, arith, inl, inr, text_eq_iff, Option-cases,
}
use mathlib.Core.Path.{subst}
use ovp_data_api.Error.{AppError, not_found}
use ovp_data_api.Storage.{ObjectStore}
use ovp_data_api.Storage.Mem
use ovp_data_api.Storage.Mem.{MemStore, mem_store}
use ovp_data_api.Storage.S3
use ovp_data_api.Storage.S3.{ClientError, Bucket, s3_store, ok_status}
use ovp_data_api.Storage.S3.Deletion.{IsConsistent, get-delete_many_ok}

-- The operations that change a store.
pub data Op : Type 0 where
  put : Text → List ℕ → Op
  delete_many : List Text → Op

module _ {St : Type 0} (store : ObjectStore St) where
  abbrev done : {A : Type 0} → Result AppError A × St → Option St
  done (ok a, s) = some s
  done (err e, s) = none

  abbrev pub apply : Op → St → Option St
  apply (put k b) s = done (store.put k b s)
  apply (delete_many ks) s = done (store.delete_many ks s)

  -- The store after operations that all succeed.
  abbrev pub apply_all : List Op → St → Option St
  apply_all [] s = some s
  apply_all (o ∷ os) s = elim (apply o s) [ none ↦ none | some s' ↦ apply_all os s' ]

abbrev pub Map : Type 0
Map = Text → Option (List ℕ)

abbrev pub changed : Op → Map → Map
changed (put k b) m = λ j. if text_eq k j then some b else m j
changed (delete_many ks) m = λ j. if any (λ k. text_eq k j) ks then none else m j

abbrev pub changed_all : List Op → Map → Map
changed_all [] m = m
changed_all (o ∷ os) m = changed_all os (changed o m)

abbrev pub found : Option (List ℕ) → Result AppError (List ℕ)
found none = err not_found
found (some b) = ok b

-- The store answers every key as the map does.
abbrev pub Answers : {St : Type 0} → ObjectStore St → St → Map → Type 0
Answers store s m = (k : Text) → store.get k s ≡ found (m k)

-- Each operation that succeeds does what it does on maps.
abbrev pub IsMap : {St : Type 0} → ObjectStore St → Type 0
IsMap {St = St} store =
    (o : Op) (s s' : St) (m : Map)
    → Answers store s m
    → apply store o s ≡ some s'
    → Answers store s' (changed o m)

mem_store-IsMap : IsMap mem_store
unfolding mem_store Mem.put Mem.delete_many
mem_store-IsMap (put k b) s s' m h e j = ground (arith, Mem.get-put k j b s, h j)
mem_store-IsMap (delete_many ks) s s' m h e j = ground (arith, Mem.get-delete_many ks s j, h j)

abbrev pub accepted : Result ClientError ℕ → Bool
unfolding ok_status
accepted (err e) = false
accepted (ok code) = ok_status code

-- What the S3 service promises of a put that it confirms: the key answers 200 with the bytes, and
-- the other keys answer what they did.
pub record IsStoring {St : Type 0} (bucket : Bucket St) : Type 0 where
  pub stored :
      (k : Text) (b : List ℕ) (s : St)
      → accepted (bucket.put_object k b s).0 ≡ true
      → bucket.get_object k (bucket.put_object k b s).1 ≡ ok (200, b)
  pub others :
      (k j : Text) (b : List ℕ) (s : St)
      → accepted (bucket.put_object k b s).0 ≡ true
      → text_eq k j ≡ false
      → bucket.get_object j (bucket.put_object k b s).1 ≡ bucket.get_object j s

module _ {St : Type 0} (bucket : Bucket St) (storing : IsStoring bucket)
    (consistent : IsConsistent bucket) where
  get-put_object :
      (k j : Text) (b : List ℕ) (s : St)
      → accepted (bucket.put_object k b s).0 ≡ true
      → S3.get bucket j (bucket.put_object k b s).1
        ≡ (if text_eq k j then ok b else S3.get bucket j s)
  unfolding S3.get ok_status
  get-put_object k j b s h =
      ground (arith, storing.stored k b s h, storing.others k j b s h, text_eq_iff k j)

  put-accepted :
      (k : Text) (b : List ℕ) (s s' : St)
      → done (s3_store bucket) (S3.put bucket k b s) ≡ some s'
      → (accepted (bucket.put_object k b s).0 ≡ true) × ((bucket.put_object k b s).1 ≡ s')
  unfolding S3.put ok_status
  put-accepted k b s s' h = ground arith

  delete_many-ok :
      (r : Result AppError ℕ × St) (s' : St)
      → done (s3_store bucket) r ≡ some s'
      → (n : ℕ) × (r ≡ (ok n, s'))
  delete_many-ok (ok n, t) s' h = (n, ground arith)
  delete_many-ok (err e, t) s' h = cc

  s3_store-IsMap : IsMap (s3_store bucket)
  unfolding s3_store
  s3_store-IsMap (put k b) s s' m h e j =
      let (accepts, same) = put-accepted k b s s' e in
      let reads = get-put_object k j b s accepts in ground (arith, h j)
  s3_store-IsMap (delete_many ks) s s' m h e j =
      let (n, ran) = delete_many-ok (S3.delete_many bucket ks s) s' e in
      let reads = (get-delete_many_ok bucket consistent ks s s' n ran).1 j in ground (arith, h j)

-- A store whose operations are those of maps answers as the map does that a run of them makes.
apply_all-Answers :
    {St : Type 0} (store : ObjectStore St)
    → IsMap store
    → (os : List Op) (s s' : St) (m : Map) → Answers store s m
    → apply_all store os s ≡ some s'
    → Answers store s' (changed_all os m)
apply_all-Answers store is_map [] s s' m h e =
    let same : s ≡ s' = ground arith in subst (λ t. Answers store t m) same h
apply_all-Answers store is_map (o ∷ os) s s' m h e = elim (Option-cases (apply store o s)) [
  | inl n ↦ ground arith
  | inr (t, k) ↦
      apply_all-Answers store is_map os t s' (changed o m) (is_map o s t m h k) (ground arith)
]

-- The store in memory and the store over a bucket that keeps what S3 promises of a put and of a
-- deletion, where both answer every key as one map does, still answer every key alike after the same
-- puts and deletions of keys, if these succeed on both.
pub mem_store-s3_store :
    {St : Type 0} (bucket : Bucket St)
    → IsStoring bucket
    → IsConsistent bucket
    → (os : List Op) (s s' : St) (t t' : MemStore) (m : Map) → Answers (s3_store bucket) s m
    → Answers mem_store t m
    → apply_all (s3_store bucket) os s ≡ some s'
    → apply_all mem_store os t ≡ some t'
    → (k : Text) → S3.get bucket k s' ≡ Mem.get k t'
unfolding s3_store mem_store
mem_store-s3_store bucket storing consistent os s s' t t' m hs ht es et k =
    apply_all-Answers (s3_store bucket) (s3_store-IsMap bucket storing consistent) os s s' m hs es k
    ∙ sym (apply_all-Answers mem_store mem_store-IsMap os t t' m ht et k)
