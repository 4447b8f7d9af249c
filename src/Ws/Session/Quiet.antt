-- ===== src/Ws/Session/Quiet.antt =====
-- src/routes/ws/session.rs: the queue of a connection is emptied before each read of the bus, so it
-- never fills.
use ovp_data_api.Base.{
  ℕ, ◌≤◌, ◌<◌, List, [], ◌∷◌, length, ◌≡◌, ◌≢◌, refl, arith, Option, none, some, true, false,
  Bool-cases, inl, inr, ap, ◌∙◌,
}
use ovp_data_api.Events.{Event}
use ovp_data_api.Metrics.{Metrics}
use ovp_data_api.Ws.Queue
use ovp_data_api.Ws.Queue.{DropOldestQueue}
use ovp_data_api.Ws.Session.{
  Conn, Turn, Arm, Message, ClientFrame, Outcome, running, closed, drop_burst, connect, on_arm,
  turn, turn_popped, run_inner, after, Sent, sent_event, resume_with, count_sent, tick, deadline,
  received, from_peer, event, lagged, bus_closed, ended, failed, message, text_frame, pong, close,
  binary, subscribe, unsubscribe,
}

-- At most one event waits, none was dropped, and no drop was counted.
pub record IsQuiet (c : Conn) : Type 0 where
  pub room : 0 < c.q.cap
  pub short : length c.q.inner ≤ 1
  pub lossless : c.q.dropped ≡ 0
  pub uncounted : c.drops_in_window ≡ 0

-- What a turn from a quiet connection leaves.
abbrev pub Keeps : Outcome → Type 0
Keeps (running c out) = IsQuiet c
Keeps (closed reason out) = reason ≢ drop_burst

Keeps-after : (out : List Sent) (o : Outcome) → Keeps o → Keeps (after out o)
Keeps-after out (running c more) k = k
Keeps-after out (closed reason more) k = k

pub connect-IsQuiet : (depth now : ℕ) (m : Metrics) → IsQuiet (connect depth now m)
unfolding connect Queue.new
connect-IsQuiet depth now m = ground arith

-- The arms run on an empty queue.
on_arm-Keeps : (now : ℕ) (c : Conn) (a : Arm) → IsQuiet c → c.q.inner ≡ [] → Keeps (on_arm now c a)
unfolding on_arm Queue.push
on_arm-Keeps now c (received (event x)) k e = ground arith
on_arm-Keeps now c (received (lagged n)) k e = ground arith
on_arm-Keeps now c (received bus_closed) k e = λ h. cc
on_arm-Keeps now c (from_peer ended) k e = λ h. cc
on_arm-Keeps now c (from_peer failed) k e = λ h. cc
on_arm-Keeps now c (from_peer (message (text_frame none))) k e = k
on_arm-Keeps now c (from_peer (message (text_frame (some (subscribe es f))))) k e = ground arith
on_arm-Keeps now c (from_peer (message (text_frame (some (unsubscribe es))))) k e = ground arith
on_arm-Keeps now c (from_peer (message (text_frame (some ClientFrame.ping)))) k e = k
on_arm-Keeps now c (from_peer (message pong)) k e = ground arith
on_arm-Keeps now c (from_peer (message Message.ping)) k e = k
on_arm-Keeps now c (from_peer (message close)) k e = λ h. cc
on_arm-Keeps now c (from_peer (message binary)) k e = λ h. cc
on_arm-Keeps now c (tick true) k e = ground arith
on_arm-Keeps now c (tick false) k e = λ h. cc
on_arm-Keeps now c deadline k e = ground arith

count_sent-IsQuiet : (t : Turn) (c : Conn) → IsQuiet c → IsQuiet (count_sent t c)
unfolding count_sent
count_sent-IsQuiet t c k = record {
  room = k.room;
  short = k.short;
  lossless = k.lossless;
  uncounted = k.uncounted;
}

inner-count_sent : (t : Turn) (c : Conn) → (count_sent t c).q.inner ≡ c.q.inner
unfolding count_sent
inner-count_sent t c = refl

turn_popped-Keeps :
    (t : Turn) (c : Conn) (x : Option Event) (q : DropOldestQueue)
    → IsQuiet (record c { q = q })
    → q.inner ≡ []
    → Keeps (turn_popped t c (x, q))
unfolding turn_popped
turn_popped-Keeps t c none q k e = on_arm-Keeps t.now (record c { q = q }) t.arm k e
turn_popped-Keeps t c (some x) q k e = elim (Bool-cases t.serializes) [
  | inl s ↦ elim (Bool-cases t.sends) [
    | inl sent ↦
        let d : Conn = count_sent t (record c { q = q }) in
        rw (s, sent)
          (Keeps-after (sent_event x ∷ []) (on_arm t.now d t.arm) (
            on_arm-Keeps t.now d t.arm (count_sent-IsQuiet t (record c { q = q }) k)
              (inner-count_sent t (record c { q = q }) ∙ e)))
    | inr lost ↦ rw (s, lost) (λ h. cc)
  ]
  | inr skipped ↦ rw skipped k
]

pub turn-Keeps : (c : Conn) (t : Turn) → IsQuiet c → Keeps (turn c t)
unfolding turn Queue.pop
turn-Keeps c t k = go c.q.inner refl
  where
    go : (xs : List Event) → c.q.inner ≡ xs → Keeps (turn_popped t c (Queue.pop_front xs c.q))
    go [] e = turn_popped-Keeps t c none c.q k e
    go (x ∷ []) e =
        turn_popped-Keeps t c (some x) (record c.q { inner = [] })
          (record {
            room = k.room;
            short = omega arith;
            lossless = k.lossless;
            uncounted = k.uncounted;
          })
          refl
    go (x ∷ y ∷ rest) e = absurd (omega (arith, k.short, ap length e))

Keeps-run :
    (o : Outcome) (ts : List Turn)
    → ((c : Conn) → IsQuiet c → Keeps (run_inner c ts))
    → Keeps o
    → Keeps (resume_with (λ d. run_inner d ts) o)
Keeps-run (closed reason out) ts ih k = k
Keeps-run (running c out) ts ih k = Keeps-after out (run_inner c ts) (ih c k)

-- However the environment behaves, a connection never closes for a burst of drops: as long as it
-- runs, at most one event waits in its queue and none was dropped, whatever the queue depth.
pub run_inner-Keeps : (c : Conn) (ts : List Turn) → IsQuiet c → Keeps (run_inner c ts)
unfolding run_inner
run_inner-Keeps c [] k = k
run_inner-Keeps c (t ∷ ts) k =
    Keeps-run (turn c t) ts (λ d. run_inner-Keeps d ts) (turn-Keeps c t k)
