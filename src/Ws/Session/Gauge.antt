-- ===== src/Ws/Session/Gauge.antt =====
-- src/routes/ws/session.rs: the gauge of subscribers, which `run` sets to 1 at its start and to 0 at
-- its end.
use ovp_data_api.Base.{ℕ, pos, ◌+◌, ◌-◌, List, [], ◌∷◌, ◌≡◌, arith, some, Text, text}
use ovp_data_api.Metrics.{Metrics, get, set_gauge}
use ovp_data_api.Metrics.Registry.{IsOrdered, modify-IsOrdered, set_gauge_last}

abbrev pub subscribers : Text
subscribers = text "chronicle_ws_subscribers"

-- The start and the end of `run`, for one connection or another.
pub data Run : Type 0 where
  starts ends : Run

unfoldable pub record_run : Metrics → Run → Metrics
record_run m starts = set_gauge m subscribers (pos 1)
record_run m ends = set_gauge m subscribers (pos 0)

unfoldable pub record_all : Metrics → List Run → Metrics
record_all m [] = m
record_all m (r ∷ rs) = record_all (record_run m r) rs

-- How many connections are open.
abbrev pub open_count : ℕ → List Run → ℕ
open_count n [] = n
open_count n (starts ∷ rs) = open_count (n + 1) rs
open_count n (ends ∷ rs) = open_count (n - 1) rs

record_run-IsOrdered :
    (m : Metrics) (r : Run) → IsOrdered m.gauges → IsOrdered (record_run m r).gauges
unfolding record_run set_gauge
record_run-IsOrdered m starts o = modify-IsOrdered subscribers (pos 1) (λ _. pos 1) m.gauges o
record_run-IsOrdered m ends o = modify-IsOrdered subscribers (pos 0) (λ _. pos 0) m.gauges o

record_all-IsOrdered :
    (m : Metrics) (rs : List Run) → IsOrdered m.gauges → IsOrdered (record_all m rs).gauges
unfolding record_all
record_all-IsOrdered m [] o = o
record_all-IsOrdered m (r ∷ rs) o =
    record_all-IsOrdered (record_run m r) rs (record_run-IsOrdered m r o)

-- When one of two or more open connections ends, the gauge reads 0 although another is open.
pub gauge_forgets :
    (m : Metrics) (rs : List Run) (n : ℕ)
    → IsOrdered m.gauges
    → open_count 0 rs ≡ n + 2
    → (get subscribers (record_run (record_all m rs) ends).gauges ≡ some (pos 0))
      × (open_count (open_count 0 rs) (ends ∷ []) ≡ n + 1)
unfolding record_run
gauge_forgets m rs n o h = (
  set_gauge_last (record_all m rs) subscribers (pos 0) (record_all-IsOrdered m rs o),
  omega (arith, h),
)
