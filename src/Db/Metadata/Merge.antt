-- ===== src/Db/Metadata/Merge.antt =====
-- src/db/metadata.rs: the shallow merge key by key.
use ovp_data_api.Base.{
  Text, text_eq, text_eq_iff, Option, none, some, Json, Members, obj, end, member, ok,
  if◌then◌else◌, ◌≡◌, refl, arith,
}
use ovp_data_api.Db.Metadata.{insert, insert_all, merge_shallow}

abbrev pub lookup : Text → Members → Option Json
lookup k end = none
lookup k (member j v m) = if text_eq j k then some v else lookup k m

-- Each key stands once, as in a map.
abbrev pub Distinct : Members → Type 0
Distinct end = Unit {0}
Distinct (member k v m) = (lookup k m ≡ none) × Distinct m

abbrev pub or_else : Option Json → Option Json → Option Json
or_else (some v) other = some v
or_else none other = other

lookup-insert :
    (k j : Text) (v : Json) (m : Members)
    → lookup j (insert k v m) ≡ (if text_eq k j then some v else lookup j m)
unfolding insert
lookup-insert k j v end = refl
lookup-insert k j v (member i u m) =
    ground (arith, lookup-insert k j v m, text_eq_iff i k, text_eq_iff i j, text_eq_iff k j)

lookup-insert_all :
    (base patch : Members) (k : Text)
    → Distinct patch
    → lookup k (insert_all base patch) ≡ or_else (lookup k patch) (lookup k base)
unfolding insert_all
lookup-insert_all base end k d = refl
lookup-insert_all base (member j v m) k d =
    ground (
      arith,
      lookup-insert_all (insert j v base) m k d.1,
      lookup-insert j k v base,
      text_eq_iff j k,
    )

-- Merging two objects gives an object in which a key of the patch has the patch's value whole, and
-- every other key the value that it had.
pub merge_shallow-lookup :
    (base patch : Members)
    → Distinct patch
    → (merged : Members) × (merge_shallow (obj base) (obj patch) ≡ ok (obj merged))
      × ((k : Text) → lookup k merged ≡ or_else (lookup k patch) (lookup k base))
unfolding merge_shallow
merge_shallow-lookup base patch d =
    (insert_all base patch, refl, λ k. lookup-insert_all base patch k d)
