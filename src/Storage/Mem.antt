-- ===== src/Storage/Mem.antt =====
-- src/storage/mem.rs: the store in memory.
use ovp_data_api.Base.{
  ℕ, ◌+◌, Text, text_eq, text_eq_iff, List, [], ◌∷◌, length, Option, none, some, Result, ok, err,
  if◌then◌else◌, ◌≡◌, arith, refl, Bool, any, delete, ◌==◌,
}
use ovp_data_api.Error.{AppError, not_found}
use ovp_data_api.Storage.{ObjectStore}

-- The HashMap, as a list of its entries.
pub record MemStore : Type 0 where
  pub objects : List (Text × List ℕ)

unfoldable pub new : MemStore
new = record { objects = [] }

unfoldable pub lookup : Text → List (Text × List ℕ) → Option (List ℕ)
lookup k [] = none
lookup k ((j, b) ∷ m) = if text_eq j k then some b else lookup k m

unfoldable pub remove : Text → List (Text × List ℕ) → List (Text × List ℕ)
remove k m = delete (λ e. text_eq e.0 k) m

unfoldable pub len : MemStore → ℕ
len s = length s.objects

unfoldable pub is_empty : MemStore → Bool
unfolding len
is_empty s = len s == 0

-- HashMap::insert
unfoldable pub put : Text → List ℕ → MemStore → Result AppError (Unit {0}) × MemStore
unfolding remove
put key body s = (ok tt, record { objects = (key, body) ∷ remove key s.objects })

unfoldable pub get : Text → MemStore → Result AppError (List ℕ)
unfolding lookup
get key s = elim (lookup key s.objects) [ none ↦ err not_found | some b ↦ ok b ]

-- the loop of `delete_many`
unfoldable pub delete_keys : List Text → ℕ → MemStore → ℕ × MemStore
unfolding lookup remove
delete_keys [] n s = (n, s)
delete_keys (k ∷ ks) n s = elim (lookup k s.objects) [
  | none ↦ delete_keys ks n s
  | some b ↦ delete_keys ks (n + 1) (record { objects = remove k s.objects })
]

unfoldable pub delete_many : List Text → MemStore → Result AppError ℕ × MemStore
unfolding delete_keys
delete_many keys s = let (n, s') = delete_keys keys 0 s in (ok n, s')

unfoldable pub head_bucket : MemStore → Result AppError (Unit {0})
head_bucket s = ok tt

-- impl ObjectStore for MemStore
unfoldable pub mem_store : ObjectStore MemStore
unfolding put get delete_many head_bucket
mem_store = record { put = put; get = get; delete_many = delete_many; head_bucket = head_bucket }

lookup-remove :
    (k j : Text) (m : List (Text × List ℕ))
    → lookup j (remove k m) ≡ (if text_eq k j then none else lookup j m)
unfolding lookup remove delete
lookup-remove k j [] = ground arith
lookup-remove k j ((i, b) ∷ m) =
    ground (arith, lookup-remove k j m, text_eq_iff i k, text_eq_iff i j, text_eq_iff k j)

-- The store reads back what was put last under a key, and a put leaves the other keys as they were.
pub get-put :
    (k j : Text) (body : List ℕ) (s : MemStore)
    → get j (put k body s).1 ≡ (if text_eq k j then ok body else get j s)
unfolding get put lookup
get-put k j body s = ground (arith, lookup-remove k j s.objects)

delete_keys-lookup :
    (ks : List Text) (n : ℕ) (s : MemStore) (j : Text)
    → lookup j (delete_keys ks n s).1.objects
      ≡ (if any (λ k. text_eq k j) ks then none else lookup j s.objects)
unfolding delete_keys
delete_keys-lookup [] n s j = refl
delete_keys-lookup (k ∷ ks) n s j = ground (
  arith,
  delete_keys-lookup ks n s j,
  delete_keys-lookup ks (n + 1) (record { objects = remove k s.objects }) j,
  lookup-remove k j s.objects,
  text_eq_iff k j,
)

-- After a deletion of keys none of them is found and every other object is as it was.
pub get-delete_many :
    (ks : List Text) (s : MemStore) (j : Text)
    → get j (delete_many ks s).1 ≡ (if any (λ k. text_eq k j) ks then err not_found else get j s)
unfolding get delete_many
get-delete_many ks s j = ground (arith, delete_keys-lookup ks 0 s j)
