-- ===== src/Metrics.antt =====
-- src/metrics.rs: the registry of counters, gauges and histograms, and its rendering. Seconds are
-- held as nanoseconds; the locks and atomics of the source serialise the calls, so a call is one
-- step on the registry.
pub mod Registry
pub mod Buckets
use ovp_data_api.Base.{
  ℕ, ℤ, ◌+◌, ◌%◌, ◌^◌, Text, text, text_eq, text_lt, List, [], ◌∷◌, ◌++◌, map, Option, none, some,
  leb, if◌then◌else◌,
}

abbrev pub u64 : ℕ → ℕ
u64 n = n % 2 ^ 64

pub record Histogram : Type 0 where
  pub buckets_upper : List ℕ
  pub buckets_count : List ℕ
  pub sum_nanos : ℕ
  pub count : ℕ

-- 0.005 s to 10 s
abbrev pub default_uppers : List ℕ
default_uppers =
    5_000_000 ∷ 10_000_000 ∷ 25_000_000 ∷ 50_000_000 ∷ 100_000_000 ∷ 250_000_000 ∷ 500_000_000
    ∷ 1_000_000_000 ∷ 2_500_000_000 ∷ 5_000_000_000 ∷ 10_000_000_000 ∷ []

unfoldable pub new_histogram : List ℕ → Histogram
new_histogram uppers = record {
  buckets_upper = uppers;
  buckets_count = map (λ _. 0) uppers;
  sum_nanos = 0;
  count = 0;
}

-- the loop of `observe`
unfoldable pub bump : List ℕ → List ℕ → ℕ → List ℕ
bump [] counts nanos = counts
bump (u ∷ us) [] nanos = []
bump (u ∷ us) (c ∷ cs) nanos = (if leb nanos u then u64 (c + 1) else c) ∷ bump us cs nanos

unfoldable pub observe : Histogram → ℕ → Histogram
observe h nanos = record h {
  sum_nanos = u64 (h.sum_nanos + nanos);
  count = u64 (h.count + 1);
  buckets_count = bump h.buckets_upper h.buckets_count nanos;
}

-- A BTreeMap<String, V>, as its entries in the order of the keys.
abbrev pub Map : Type 0 → Type 0
Map V = List (Text × V)

module _ {V : Type 0} where
  unfoldable pub get : Text → Map V → Option V
  get k [] = none
  get k ((j, v) ∷ m) = if text_eq j k then some v else get k m

  -- `get` and `f` on a key that is there, `entry(k).or_insert_with(default)` and `f` on a new one
  unfoldable pub modify : Text → V → (V → V) → Map V → Map V
  modify k default f [] = (k, f default) ∷ []
  modify k default f ((j, v) ∷ m) =
      if text_eq j k
      then (j, f v) ∷ m
      else if text_lt k j
      then (k, f default) ∷ (j, v) ∷ m
      else (j, v) ∷ modify k default f m

pub record Metrics : Type 0 where
  pub counters : Map ℕ
  pub gauges : Map ℤ
  pub histograms : Map Histogram

unfoldable pub new : Metrics
new = record { counters = []; gauges = []; histograms = [] }

unfoldable pub inc_counter : Metrics → Text → ℕ → Metrics
inc_counter m name by = record m { counters = modify name 0 (λ c. u64 (c + by)) m.counters }

unfoldable pub set_gauge : Metrics → Text → ℤ → Metrics
set_gauge m name value = record m { gauges = modify name value (λ _. value) m.gauges }

unfoldable pub observe_histogram : Metrics → Text → ℕ → Metrics
unfolding new_histogram observe
observe_histogram m name nanos = record m {
  histograms = modify name (new_histogram default_uppers) (λ h. observe h nanos) m.histograms;
}

-- A line of the exposition; `none` is the bound `+Inf`.
pub data Line : Type 0 where
  kind : Text → Text → Line
  counter : Text → ℕ → Line
  gauge : Text → ℤ → Line
  bucket : Text → Option ℕ → ℕ → Line
  sum count : Text → ℕ → Line

-- the loop over the buckets, with the running `cumulative`
unfoldable pub render_buckets : Text → ℕ → List ℕ → List ℕ → List Line
render_buckets name cumulative [] counts = []
render_buckets name cumulative (u ∷ us) [] = []
render_buckets name cumulative (u ∷ us) (c ∷ cs) =
    let next = u64 (cumulative + c) in bucket name (some u) next ∷ render_buckets name next us cs

unfoldable pub render_histogram : Text → Histogram → List Line
unfolding render_buckets
render_histogram name h =
    kind name (text "histogram")
    ∷ (render_buckets name 0 h.buckets_upper h.buckets_count
        ++ bucket name none h.count ∷ sum name h.sum_nanos ∷ count name h.count ∷ [])

unfoldable pub render_counters : Map ℕ → List Line
render_counters [] = []
render_counters ((name, v) ∷ m) = kind name (text "counter") ∷ counter name v ∷ render_counters m

unfoldable pub render_gauges : Map ℤ → List Line
render_gauges [] = []
render_gauges ((name, v) ∷ m) = kind name (text "gauge") ∷ gauge name v ∷ render_gauges m

unfoldable pub render_histograms : Map Histogram → List Line
unfolding render_histogram
render_histograms [] = []
render_histograms ((name, h) ∷ m) = render_histogram name h ++ render_histograms m

unfoldable pub render : Metrics → List Line
unfolding render_counters render_gauges render_histograms
render m = render_counters m.counters ++ (render_gauges m.gauges ++ render_histograms m.histograms)
