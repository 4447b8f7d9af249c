-- ===== src/Tests/Data.antt =====
-- Runs of the statuses, the ids, the registry of metrics, the merge of metadata and the store.
use ovp_data_api.Base.{
  ◌≡◌, ◌↔◌, refl, arith, ℕ, pos, text, Text, List, [], ◌∷◌, ◌++◌, ok, Members, obj, num, end,
  member,
}
use ovp_data_api.State
use ovp_data_api.State.{
  recording, uploaded, transcribing, transcribed, from_str, as_str, can_transition,
}
use ovp_data_api.State.Names.{from_str_iff}
use ovp_data_api.Metrics.{default_uppers, new_histogram, render_histogram}
use ovp_data_api.Metrics.Buckets.{observe_all, bucket_counts, fast_overcounted}
use ovp_data_api.Db.Metadata.{merge_shallow}
use ovp_data_api.Db.Metadata.Merge.{lookup, or_else, merge_shallow-lookup}

from_str_iff_example :
    ((from_str (text "uploaded") ≡ ok uploaded) ↔ (State.to_string uploaded ≡ text "uploaded"))
    × ((State.decode (text "uploaded") ≡ ok uploaded) ↔ (State.encode uploaded ≡ text "uploaded"))
from_str_iff_example = from_str_iff (text "uploaded") uploaded

abbrev times : List ℕ
times = 1_000 ∷ 4_000_000 ∷ []

fast_overcounted_example :
    (rest : List ℕ) × (bucket_counts
        (render_histogram (text "h") (observe_all (new_histogram default_uppers) times))
      ≡ 2 ∷ 4 ∷ (rest ++ 2 ∷ []))
fast_overcounted_example =
    fast_overcounted (text "h") times (omega arith, (omega arith, tt)) (omega arith)

abbrev base : Members
base = member (text "a") (num (pos 1)) (member (text "b") (num (pos 2)) end)

abbrev patch : Members
patch = member (text "b") (num (pos 3)) end

merge_shallow-lookup_example :
    (merged : Members) × (merge_shallow (obj base) (obj patch) ≡ ok (obj merged))
    × ((k : Text) → lookup k merged ≡ or_else (lookup k patch) (lookup k base))
merge_shallow-lookup_example = merge_shallow-lookup base patch (refl, tt)
