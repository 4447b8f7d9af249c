-- ===== src/Ws/Queue.antt =====
-- src/routes/ws/queue.rs: the bounded queue of one subscriber, oldest event first.
pub mod Suffix
use Prim.Native.Nat.{min, max}
use ovp_data_api.Base.{
  ℕ, ◌+◌, ◌-◌, ◌^◌, Bool, true, false, Option, none, some, List, [], ◌∷◌, ◌++◌, length, drop, leb,
  if◌then◌else◌,
}
use ovp_data_api.Events.{Event}

pub record DropOldestQueue : Type 0 where
  pub cap : ℕ
  pub inner : List Event
  pub dropped : ℕ

unfoldable pub new : ℕ → DropOldestQueue
new cap = record { cap = max cap 1; inner = []; dropped = 0 }

abbrev pub u64_max : ℕ
u64_max = 2 ^ 64 - 1

-- u64::saturating_add
abbrev pub saturating_add : ℕ → ℕ → ℕ
saturating_add a b = min (a + b) u64_max

-- `true` where an older event was dropped; `drop 1` is `pop_front`.
unfoldable pub push : DropOldestQueue → Event → DropOldestQueue × Bool
push q e =
    if leb q.cap (length q.inner)
    then (record q { inner = drop 1 q.inner ++ e ∷ []; dropped = saturating_add q.dropped 1 }, true)
    else (record q { inner = q.inner ++ e ∷ [] }, false)

unfoldable pub pop_front : List Event → DropOldestQueue → Option Event × DropOldestQueue
pop_front [] q = (none, q)
pop_front (e ∷ rest) q = (some e, record q { inner = rest })

unfoldable pub pop : DropOldestQueue → Option Event × DropOldestQueue
unfolding pop_front
pop q = pop_front q.inner q
