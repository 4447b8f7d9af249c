-- ===== src/Metrics/Registry.antt =====
-- src/metrics.rs: a call changes the metric that it names and no other.
use ovp_data_api.Base.{
  ℕ, ℤ, ◌+◌, Text, text_eq, text_eq_iff, text_eq_refl, text_lt, [], ◌∷◌, none, some, if◌then◌else◌,
  ◌≡◌, arith, refl, unwrap_or, true, false, Bool-cases, inl, inr,
}
use ovp_data_api.Metrics.{Map, Metrics, get, modify, inc_counter, set_gauge, u64}

module _ {V : Type 0} where
  -- The keys stand in strictly rising order.
  abbrev pub After : Text → Map V → Type 0
  After k [] = Unit {0}
  After k ((j, v) ∷ m) = (text_lt k j ≡ true) × After j m

  abbrev pub IsOrdered : Map V → Type 0
  IsOrdered [] = Unit {0}
  IsOrdered ((k, v) ∷ m) = After k m

text_lt_irrefl : (s : Text) → text_lt s s ≡ false
unfolding text_lt
text_lt_irrefl [] = refl
text_lt_irrefl (a ∷ s) = ground (arith, text_lt_irrefl s)

text_lt_trans : (s t u : Text) → text_lt s t ≡ true → text_lt t u ≡ true → text_lt s u ≡ true
unfolding text_lt
text_lt_trans [] [] u h k = cc
text_lt_trans [] (b ∷ t) [] h k = cc
text_lt_trans [] (b ∷ t) (c ∷ u) h k = refl
text_lt_trans (a ∷ s) [] u h k = cc
text_lt_trans (a ∷ s) (b ∷ t) [] h k = cc
text_lt_trans (a ∷ s) (b ∷ t) (c ∷ u) h k = ground (arith, text_lt_trans s t u)

text_lt-text_eq : (s t : Text) → text_lt s t ≡ true → text_eq t s ≡ false
text_lt-text_eq s t h = ground (arith, text_eq_iff t s, text_lt_irrefl s)

module _ {V : Type 0} where
  After-lower : (k j : Text) (m : Map V) → text_lt k j ≡ true → After j m → After k m
  After-lower k j [] h a = tt
  After-lower k j ((i, v) ∷ m) h a = (text_lt_trans k j i h a.0, a.1)

  After-IsOrdered : (k : Text) (m : Map V) → After k m → IsOrdered m
  After-IsOrdered k [] a = tt
  After-IsOrdered k ((i, v) ∷ m) a = a.1

  get-After : (k : Text) (m : Map V) → After k m → get k m ≡ none
  unfolding get
  get-After k [] a = refl
  get-After k ((i, v) ∷ m) a =
      rw (text_lt-text_eq k i a.0) (get-After k m (After-lower k i m a.0 a.1))

  -- On an ordered map `modify` changes the value at its key and no other.
  pub get-modify :
      (k j : Text) (d : V) (f : V → V) (m : Map V)
      → IsOrdered m
      → get j (modify k d f m) ≡ (if text_eq k j then some (f (unwrap_or (get k m) d)) else get j m)
  unfolding get modify
  get-modify k j d f [] o = ground arith
  get-modify k j d f ((i, v) ∷ m) o = elim (Bool-cases (text_eq i k)) [
    | inl same ↦
        let e : i ≡ k = (text_eq_iff i k).0 same in rw (same, e) (ground (arith, text_eq_refl k))
    | inr other ↦ elim (Bool-cases (text_lt k i)) [
      | inl before ↦ rw (other, before, get-After k m (After-lower k i m before o)) (ground arith)
      | inr later ↦
          rw (other, later)
            (ground (
              arith,
              get-modify k j d f m (After-IsOrdered i m o),
              text_eq_iff i j,
              text_eq_iff i k,
              text_eq_iff k j,
            ))
    ]
  ]

-- A counter reads 0 before its first increment; an increment adds, modulo 2^64, to the counter that
-- it names, and changes no other counter, no gauge and no histogram.
pub inc_counter_lem :
    (m : Metrics) (k j : Text) (by : ℕ)
    → IsOrdered m.counters
    → (unwrap_or (get j (inc_counter m k by).counters) 0 ≡ (
        if text_eq k j
        then u64 (unwrap_or (get k m.counters) 0 + by)
        else unwrap_or (get j m.counters) 0))
      × ((inc_counter m k by).gauges ≡ m.gauges)
      × ((inc_counter m k by).histograms ≡ m.histograms)
unfolding inc_counter
inc_counter_lem m k j by o =
    (rw (get-modify k j 0 (λ c. u64 (c + by)) m.counters o) (ground arith), refl, refl)

text_lt_total : (s t : Text) → text_eq s t ≡ false → text_lt t s ≡ false → text_lt s t ≡ true
unfolding text_lt text_eq
text_lt_total [] [] h k = cc
text_lt_total [] (b ∷ t) h k = refl
text_lt_total (a ∷ s) [] h k = cc
text_lt_total (a ∷ s) (b ∷ t) h k = ground (arith, text_lt_total s t)

module _ {V : Type 0} where
  modify-After :
      (x k : Text) (d : V) (f : V → V) (m : Map V)
      → text_lt x k ≡ true
      → After x m
      → After x (modify k d f m)
  unfolding modify
  modify-After x k d f [] h a = (h, tt)
  modify-After x k d f ((i, v) ∷ m) h a = elim (Bool-cases (text_eq i k)) [
    | inl same ↦ rw same a
    | inr other ↦ elim (Bool-cases (text_lt k i)) [
      | inl before ↦ rw (other, before) (h, (before, a.1))
      | inr later ↦
          rw (other, later) (a.0, modify-After i k d f m (text_lt_total i k other later) a.1)
    ]
  ]

  pub modify-IsOrdered :
      (k : Text) (d : V) (f : V → V) (m : Map V) → IsOrdered m → IsOrdered (modify k d f m)
  unfolding modify
  modify-IsOrdered k d f [] o = tt
  modify-IsOrdered k d f ((i, v) ∷ m) o = elim (Bool-cases (text_eq i k)) [
    | inl same ↦ rw same o
    | inr other ↦ elim (Bool-cases (text_lt k i)) [
      | inl before ↦ rw (other, before) (before, o)
      | inr later ↦ rw (other, later) (modify-After i k d f m (text_lt_total i k other later) o)
    ]
  ]

-- A gauge reads the last value stored to it, whoever stored it.
pub set_gauge_last :
    (m : Metrics) (k : Text) (b : ℤ) → IsOrdered m.gauges → get k (set_gauge m k b).gauges ≡ some b
unfolding set_gauge
set_gauge_last m k b o = rw (get-modify k k b (λ _. b) m.gauges o) (ground (arith, text_eq_refl k))
