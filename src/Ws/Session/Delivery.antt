-- ===== src/Ws/Session/Delivery.antt =====
-- src/routes/ws/session.rs: what a subscriber is sent.
use mathlib.Core.List.{append_assoc, append-nil}
use ovp_data_api.Base.{
  ℕ, ◌<◌, List, [], ◌∷◌, ◌++◌, length, ◌≡◌, refl, sym, ap, ◌∙◌, arith, none, some, true, false,
  Bool-cases, inl, inr, All, if◌then◌else◌,
}
use ovp_data_api.Events.{Event}
use ovp_data_api.Ws.Filter
use ovp_data_api.Ws.Filter.{SubscriptionSet}
use ovp_data_api.Ws.Queue
use ovp_data_api.Ws.Queue.{DropOldestQueue}
use ovp_data_api.Ws.Session.{
  Conn, Turn, Arm, Outcome, running, closed, Sent, sent_event, ClientFrame, Message, received,
  from_peer, tick, deadline, event, lagged, bus_closed, ended, failed, message, text_frame, pong,
  close, binary, subscribe, unsubscribe, on_arm, turn, turn_popped, count_sent, run_inner, after,
  resume_with,
}
use ovp_data_api.Ws.Session.Quiet.{IsQuiet, Keeps, turn-Keeps}

-- The events among what was sent.
abbrev pub sent_events : List Sent → List Event
sent_events [] = []
sent_events (sent_event e ∷ out) = e ∷ sent_events out
sent_events (_ ∷ out) = sent_events out

-- The event that the bus hands to the connection, where the subscriptions want it: a turn on which the
-- bus reports that it has lagged hands over none.
abbrev pub offered : SubscriptionSet → Arm → List Event
offered subs (received (event e)) = if Filter.matches subs e then e ∷ [] else []
offered subs _ = []

abbrev pub resubscribed : SubscriptionSet → Arm → SubscriptionSet
resubscribed subs (from_peer (message (text_frame (some (subscribe events filter))))) =
    Filter.subscribe subs events filter
resubscribed subs (from_peer (message (text_frame (some (unsubscribe events))))) =
    Filter.unsubscribe subs events
resubscribed subs _ = subs

-- Every event handed over that matched the subscriptions of its time, in order.
abbrev pub wanted : SubscriptionSet → List Turn → List Event
wanted subs [] = []
wanted subs (t ∷ ts) = offered subs t.arm ++ wanted (resubscribed subs t.arm) ts

-- While it runs, a connection has sent or queued exactly `es`; once closed it has sent a prefix.
abbrev pub Delivers : List Event → Outcome → Type 0
Delivers es (running c out) = sent_events out ++ c.q.inner ≡ es
Delivers es (closed reason out) = (rest : List Event) × (sent_events out ++ rest ≡ es)

-- An arm that runs on an empty queue sends no event and queues what is offered.
abbrev Served : SubscriptionSet → Arm → Outcome → Type 0
Served subs a (running c out) =
    (sent_events out ≡ []) × (c.q.inner ≡ offered subs a) × (c.subs ≡ resubscribed subs a)
Served subs a (closed reason out) = sent_events out ≡ []

on_arm-Served :
    (now : ℕ) (c : Conn) (a : Arm) → 0 < c.q.cap → c.q.inner ≡ [] → Served c.subs a (on_arm now c a)
unfolding on_arm Queue.push
on_arm-Served now c (received (event x)) k e = ground arith
on_arm-Served now c (received (lagged n)) k e = (refl, e, refl)
on_arm-Served now c (received bus_closed) k e = refl
on_arm-Served now c (from_peer ended) k e = refl
on_arm-Served now c (from_peer failed) k e = refl
on_arm-Served now c (from_peer (message (text_frame none))) k e = (refl, e, refl)
on_arm-Served now c (from_peer (message (text_frame (some (subscribe es f))))) k e = (refl, e, refl)
on_arm-Served now c (from_peer (message (text_frame (some (unsubscribe es))))) k e = (refl, e, refl)
on_arm-Served now c (from_peer (message (text_frame (some ClientFrame.ping)))) k e = (refl, e, refl)
on_arm-Served now c (from_peer (message pong)) k e = (refl, e, refl)
on_arm-Served now c (from_peer (message Message.ping)) k e = (refl, e, refl)
on_arm-Served now c (from_peer (message close)) k e = refl
on_arm-Served now c (from_peer (message binary)) k e = refl
on_arm-Served now c (tick true) k e = (refl, e, refl)
on_arm-Served now c (tick false) k e = refl
on_arm-Served now c deadline k e = ground arith

-- A turn sends the event that waited and queues the one that is offered.
abbrev Turned : List Event → SubscriptionSet → Arm → Outcome → Type 0
Turned before subs a (running c out) =
    (sent_events out ++ c.q.inner ≡ before ++ offered subs a) × (c.subs ≡ resubscribed subs a)
Turned before subs a (closed reason out) = (rest : List Event) × (sent_events out ++ rest ≡ before)

Served-Turned :
    (subs : SubscriptionSet) (a : Arm) (o : Outcome) → Served subs a o → Turned [] subs a o
Served-Turned subs a (running c out) (s, q, r) = (rw (s, q) refl, r)
Served-Turned subs a (closed reason out) s = ([], rw s refl)

Served-after :
    (subs : SubscriptionSet) (a : Arm) (x : Event) (o : Outcome)
    → Served subs a o
    → Turned (x ∷ []) subs a (after (sent_event x ∷ []) o)
Served-after subs a x (running c out) (s, q, r) = (rw (s, q) refl, r)
Served-after subs a x (closed reason out) s = ([], rw s refl)

turn_popped-Turned :
    (t : Turn) (c : Conn) (x : Event) (q : DropOldestQueue)
    → t.serializes ≡ true
    → 0 < q.cap
    → q.inner ≡ []
    → Turned (x ∷ []) c.subs t.arm (turn_popped t c (some x, q))
unfolding turn_popped count_sent
turn_popped-Turned t c x q s k e = elim (Bool-cases t.sends) [
  | inl sent ↦
      rw (s, sent)
        (Served-after c.subs t.arm x (on_arm t.now (count_sent t (record c { q = q })) t.arm)
          (on_arm-Served t.now (count_sent t (record c { q = q })) t.arm k e))
  | inr lost ↦ rw (s, lost) (x ∷ [], refl)
]

turn-Turned :
    (c : Conn) (t : Turn)
    → IsQuiet c
    → t.serializes ≡ true
    → Turned c.q.inner c.subs t.arm (turn c t)
unfolding turn Queue.pop turn_popped
turn-Turned c t k s = go c.q.inner refl
  where
    go :
        (xs : List Event)
        → c.q.inner ≡ xs
        → Turned xs c.subs t.arm (turn_popped t c (Queue.pop_front xs c.q))
    go [] e =
        Served-Turned c.subs t.arm (on_arm t.now c t.arm) (on_arm-Served t.now c t.arm k.room e)
    go (x ∷ []) e = turn_popped-Turned t c x (record c.q { inner = [] }) s k.room refl
    go (x ∷ y ∷ rest) e = absurd (omega (arith, k.short, ap length e))

abbrev pub Serializable : List Turn → Type 0
Serializable = All (λ t. t.serializes ≡ true)

sent_events-append : (a b : List Sent) → sent_events (a ++ b) ≡ sent_events a ++ sent_events b
sent_events-append [] b = refl
sent_events-append (sent_event e ∷ a) b = ap (λ (l : List Event). e ∷ l) (sent_events-append a b)
sent_events-append (_ ∷ a) b = sent_events-append a b

joined :
    (out more : List Sent) (tail queued later before now : List Event)
    → sent_events more ++ tail ≡ queued ++ later
    → sent_events out ++ queued ≡ before ++ now
    → sent_events (out ++ more) ++ tail ≡ before ++ (now ++ later)
joined out more tail queued later before now h p =
    rw (sent_events-append, append_assoc, h)
      (sym (append_assoc (sent_events out) queued later) ∙ rw p (append_assoc before now later))

Delivers-after :
    (before : List Event) (subs : SubscriptionSet) (t : Turn) (ts : List Turn) (c : Conn)
    (out : List Sent) (o : Outcome)
    → Turned before subs t.arm (running c out)
    → Delivers (c.q.inner ++ wanted c.subs ts) o
    → Delivers (before ++ wanted subs (t ∷ ts)) (after out o)
Delivers-after before subs t ts c out (running d more) (p, q) h =
    rw (← q)
      (joined out more d.q.inner c.q.inner (wanted c.subs ts) before (offered subs t.arm) h p)
Delivers-after before subs t ts c out (closed reason more) (p, q) (rest, h) = (
  rest,
  rw (← q) (joined out more rest c.q.inner (wanted c.subs ts) before (offered subs t.arm) h p),
)

Delivers-resume :
    (before : List Event) (subs : SubscriptionSet) (t : Turn) (ts : List Turn) (o : Outcome)
    → ((c : Conn) → IsQuiet c → Delivers (c.q.inner ++ wanted c.subs ts) (run_inner c ts))
    → Turned before subs t.arm o
    → Keeps o
    → Delivers (before ++ wanted subs (t ∷ ts)) (resume_with (λ d. run_inner d ts) o)
Delivers-resume before subs t ts (running c out) ih p k =
    Delivers-after before subs t ts c out (run_inner c ts) p (ih c k)
Delivers-resume before subs t ts (closed reason out) ih (rest, p) k = (
  rest ++ wanted subs (t ∷ ts),
  sym (append_assoc (sent_events out) rest (wanted subs (t ∷ ts))) ∙ rw p refl,
)

-- If every event serialises, a quiet connection that runs has sent or queued exactly the events that
-- the bus handed to it and that matched the subscriptions of their time, in order and each once,
-- behind what it had queued; and one that has closed has sent a prefix of those. Events that the bus
-- dropped because the connection lagged are not handed to it, and are not counted.
pub run_inner-Delivers :
    (c : Conn) (ts : List Turn)
    → IsQuiet c
    → Serializable ts
    → Delivers (c.q.inner ++ wanted c.subs ts) (run_inner c ts)
unfolding run_inner
run_inner-Delivers c [] k s = sym (append-nil c.q.inner)
run_inner-Delivers c (t ∷ ts) k s =
    Delivers-resume c.q.inner c.subs t ts (turn c t) (λ d kd. run_inner-Delivers d ts kd s.1)
      (turn-Turned c t k s.0) (turn-Keeps c t k)
