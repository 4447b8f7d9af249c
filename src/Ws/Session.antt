-- ===== src/Ws/Session.antt =====
-- src/routes/ws/session.rs: the loop of one connection, a turn at a time. What the environment
-- decides comes with the turn: whether the pending event serialises and is sent, which arm of the
-- `select!` completes, and the instant. Instants are nanoseconds.
pub mod Quiet
pub mod Delivery
pub mod Heartbeat
pub mod Ending
pub mod Gauge
use ovp_data_api.Base.{
  ℕ, ℤ, pos, ◌+◌, ◌-◌, ◌*◌, Text, text, Bool, true, false, Option, none, some, List, [], ◌∷◌, ◌++◌,
  ltb, leb, if◌then◌else◌,
}
use ovp_data_api.Events.{Event}
use ovp_data_api.Metrics.{Metrics, inc_counter, observe_histogram}
use ovp_data_api.Ws.Filter.{Filter, Subscription, SubscriptionSet}
use ovp_data_api.Ws.Filter
use ovp_data_api.Ws.Queue.{DropOldestQueue}
use ovp_data_api.Ws.Queue

abbrev pub second : ℕ
second = 1_000_000_000

abbrev pub ping_period : ℕ
ping_period = 30 * second

abbrev pub pong_grace : ℕ
pong_grace = 10 * second

pub data ClientFrame : Type 0 where
  subscribe : List Text → Filter → ClientFrame
  unsubscribe : List Text → ClientFrame
  ping : ClientFrame

-- A text frame carries what serde made of it: `none` is an invalid frame.
pub data Message : Type 0 where
  text_frame : Option ClientFrame → Message
  pong ping close binary : Message

pub data Received : Type 0 where
  event : Event → Received
  lagged : ℕ → Received
  bus_closed : Received

pub data FromPeer : Type 0 where
  ended failed : FromPeer
  message : Message → FromPeer

-- The arm that completes; a heartbeat tick says whether its ping could be sent.
pub data Arm : Type 0 where
  received : Received → Arm
  from_peer : FromPeer → Arm
  tick : Bool → Arm
  deadline : Arm

pub record Turn : Type 0 where
  pub serializes : Bool
  pub sends : Bool
  pub sampled : Option ℕ
  pub arm : Arm
  pub now : ℕ

pub data Sent : Type 0 where
  sent_event : Event → Sent
  subscribed unsubscribed : List Subscription → Sent
  error sent_pong sent_ping : Sent

pub data Closed : Type 0 where
  peer_closed peer_error send_failed invalid_frame healthcheck_timeout drop_burst : Closed

-- The local variables of `run_inner`, and the shared metrics.
pub record Conn : Type 0 where
  pub subs : SubscriptionSet
  pub q : DropOldestQueue
  pub pong_deadline : Option ℕ
  pub drop_window_start : ℕ
  pub drops_in_window : ℕ
  pub metrics : Metrics

pub data Outcome : Type 0 where
  running : Conn → List Sent → Outcome
  closed : Closed → List Sent → Outcome

unfoldable pub connect : ℕ → ℕ → Metrics → Conn
connect depth now metrics = record {
  subs = Filter.empty;
  q = Queue.new depth;
  pong_deadline = none;
  drop_window_start = now;
  drops_in_window = 0;
  metrics = metrics;
}

-- An overflow: the drop is counted, and a burst closes the connection.
unfoldable pub count_drop : ℕ → Conn → Outcome
count_drop now c =
    let expired = ltb (60 * second) (now - c.drop_window_start) in
    let drops = if expired then 1 else c.drops_in_window + 1 in
    let start = if expired then now else c.drop_window_start in
    let metrics = inc_counter c.metrics (text "chronicle_ws_events_dropped_total") 1 in
    if ltb 10 drops
    then closed drop_burst []
    else running
        (record c { drop_window_start = start; drops_in_window = drops; metrics = metrics }) []

unfoldable pub enqueue : ℕ → Conn → DropOldestQueue × Bool → Outcome
unfolding count_drop
enqueue now c (q, overflowed) =
    if overflowed then count_drop now (record c { q = q }) else running (record c { q = q }) []

unfoldable pub on_received : ℕ → Conn → Received → Outcome
unfolding enqueue
on_received now c (event e) =
    if Filter.matches c.subs e then enqueue now c (Queue.push c.q e) else running c []
on_received now c (lagged n) =
    running
      (record c { metrics = inc_counter c.metrics (text "chronicle_ws_events_dropped_total") n }) []
on_received now c bus_closed = closed peer_closed []

unfoldable pub on_frame : Conn → Option ClientFrame → Outcome
on_frame c (some (subscribe events filter)) =
    let subs = Filter.subscribe c.subs events filter in
    running (record c { subs = subs }) (subscribed (Filter.active subs) ∷ [])
on_frame c (some (unsubscribe events)) =
    let subs = Filter.unsubscribe c.subs events in
    running (record c { subs = subs }) (unsubscribed (Filter.active subs) ∷ [])
on_frame c (some ping) = running c (sent_pong ∷ [])
on_frame c none = running c (error ∷ [])

unfoldable pub on_message : Conn → Message → Outcome
unfolding on_frame
on_message c (text_frame f) = on_frame c f
on_message c pong = running (record c { pong_deadline = none }) []
on_message c ping = running c (sent_pong ∷ [])
on_message c close = closed peer_closed []
on_message c binary = closed invalid_frame (error ∷ [])

unfoldable pub on_peer : Conn → FromPeer → Outcome
unfolding on_message
on_peer c ended = closed peer_closed []
on_peer c failed = closed peer_error []
on_peer c (message m) = on_message c m

-- `wait_deadline` completes at the deadline, and never without one.
unfoldable pub on_deadline : ℕ → Conn → Option ℕ → Outcome
on_deadline now c none = running c []
on_deadline now c (some d) = if leb d now then closed healthcheck_timeout [] else running c []

unfoldable pub on_arm : ℕ → Conn → Arm → Outcome
unfolding on_received on_peer on_deadline
on_arm now c (received r) = on_received now c r
on_arm now c (from_peer m) = on_peer c m
on_arm now c (tick true) =
    running (record c { pong_deadline = some (now + pong_grace) }) (sent_ping ∷ [])
on_arm now c (tick false) = closed peer_closed []
on_arm now c deadline = on_deadline now c c.pong_deadline

-- Output before a step goes in front of what the step sends.
abbrev pub after : List Sent → Outcome → Outcome
after out (running c more) = running c (out ++ more)
after out (closed reason more) = closed reason (out ++ more)

unfoldable pub count_sent : Turn → Conn → Conn
count_sent t c =
    let observed : Metrics = elim t.sampled [
      | none ↦ c.metrics
      | some elapsed ↦ observe_histogram c.metrics (text "chronicle_ws_send_seconds") elapsed
    ] in
    record c { metrics = inc_counter observed (text "chronicle_ws_events_sent_total") 1 }

-- The turn after the queue was popped. What does not serialise is skipped by `continue`.
unfoldable pub turn_popped : Turn → Conn → Option Event × DropOldestQueue → Outcome
unfolding on_arm count_sent
turn_popped t c (none, q) = on_arm t.now (record c { q = q }) t.arm
turn_popped t c (some e, q) =
    if t.serializes
    then (if t.sends
        then after (sent_event e ∷ []) (on_arm t.now (count_sent t (record c { q = q })) t.arm)
        else closed send_failed [])
    else running (record c { q = q }) []

-- one pass through the `loop`
unfoldable pub turn : Conn → Turn → Outcome
unfolding turn_popped
turn c t = turn_popped t c (Queue.pop c.q)

-- A loop goes on from a running outcome and ends with a closed one.
abbrev pub resume_with : (Conn → Outcome) → Outcome → Outcome
resume_with rest (closed reason out) = closed reason out
resume_with rest (running c out) = after out (rest c)

-- `run_inner` over the turns that the environment makes
unfoldable pub run_inner : Conn → List Turn → Outcome
unfolding turn
run_inner c [] = running c []
run_inner c (t ∷ ts) = resume_with (λ d. run_inner d ts) (turn c t)
