-- ===== src/Ws/Session/Heartbeat.antt =====
-- src/routes/ws/session.rs: when a connection is dropped for want of a pong, and what the gauge of
-- subscribers shows.
use ovp_data_api.Base.{
  ℕ, ◌+◌, ◌≤◌, List, [], ◌∷◌, ◌≡◌, ◌⊎◌, inl, inr, refl, arith, Option, none, some, true, false,
  Bool-cases, leb,
}
use ovp_data_api.Events.{Event}
use ovp_data_api.Ws.Queue
use ovp_data_api.Ws.Queue.{DropOldestQueue}
use ovp_data_api.Ws.Session.Delivery.{Serializable}
use ovp_data_api.Ws.Session.{
  Conn, Turn, Arm, Outcome, running, closed, healthcheck_timeout, Sent, sent_event, ClientFrame,
  Message, received, from_peer, tick, deadline, event, lagged, bus_closed, ended, failed, message,
  text_frame, pong, close, binary, subscribe, unsubscribe, on_arm, turn, turn_popped, count_sent,
  run_inner, after, resume_with, pong_grace,
}

-- When the ping was sent that no pong has answered since, after an arm at `now`.
abbrev pub unanswered : Option ℕ → ℕ → Arm → Option ℕ
unanswered p now (tick true) = some now
unanswered p now (from_peer (message pong)) = none
unanswered p now _ = p

abbrev pub due : Option ℕ → Option ℕ
due none = none
due (some p) = some (p + pong_grace)

-- At some turn the deadline fires, ten seconds or more after a ping that no pong has answered.
abbrev pub TimesOut : Option ℕ → List Turn → Type 0
TimesOut p [] = ⊥
TimesOut p (t ∷ ts) =
    ((t.arm ≡ deadline) × ((sent_at : ℕ) × (p ≡ some sent_at) × (sent_at + pong_grace ≤ t.now)))
    ⊎ TimesOut (unanswered p t.now t.arm) ts

abbrev pub Fires : Option ℕ → ℕ → Arm → Type 0
Fires p now a = (a ≡ deadline) × ((sent_at : ℕ) × (p ≡ some sent_at) × (sent_at + pong_grace ≤ now))

abbrev pub Beats : Option ℕ → ℕ → Arm → Outcome → Type 0
Beats p now a (running c out) = c.pong_deadline ≡ due (unanswered p now a)
Beats p now a (closed reason out) = reason ≡ healthcheck_timeout → Fires p now a

on_arm-Beats :
    (p : Option ℕ) (now : ℕ) (c : Conn) (a : Arm)
    → c.pong_deadline ≡ due p
    → Beats p now a (on_arm now c a)
unfolding on_arm
on_arm-Beats p now c (received (event x)) e = ground arith
on_arm-Beats p now c (received (lagged n)) e = e
on_arm-Beats p now c (received bus_closed) e = λ h. cc
on_arm-Beats p now c (from_peer ended) e = λ h. cc
on_arm-Beats p now c (from_peer failed) e = λ h. cc
on_arm-Beats p now c (from_peer (message (text_frame none))) e = e
on_arm-Beats p now c (from_peer (message (text_frame (some (subscribe es f))))) e = e
on_arm-Beats p now c (from_peer (message (text_frame (some (unsubscribe es))))) e = e
on_arm-Beats p now c (from_peer (message (text_frame (some ClientFrame.ping)))) e = e
on_arm-Beats p now c (from_peer (message pong)) e = refl
on_arm-Beats p now c (from_peer (message Message.ping)) e = e
on_arm-Beats p now c (from_peer (message close)) e = λ h. cc
on_arm-Beats p now c (from_peer (message binary)) e = λ h. cc
on_arm-Beats p now c (tick true) e = refl
on_arm-Beats p now c (tick false) e = λ h. cc
on_arm-Beats none now c deadline e = rw e refl
on_arm-Beats (some s) now c deadline e = elim (Bool-cases (leb (s + pong_grace) now)) [
  | inl late ↦ rw (e, late) (λ h. (refl, (s, refl, ground arith)))
  | inr early ↦ rw (e, early) refl
]

Beats-after :
    (p : Option ℕ) (now : ℕ) (a : Arm) (out : List Sent) (o : Outcome)
    → Beats p now a o
    → Beats p now a (after out o)
Beats-after p now a out (running c more) b = b
Beats-after p now a out (closed reason more) b = b

turn_popped-Beats :
    (p : Option ℕ) (t : Turn) (c : Conn) (x : Option Event) (q : DropOldestQueue)
    → t.serializes ≡ true
    → c.pong_deadline ≡ due p
    → Beats p t.now t.arm (turn_popped t c (x, q))
unfolding turn_popped count_sent
turn_popped-Beats p t c none q s e = on_arm-Beats p t.now (record c { q = q }) t.arm e
turn_popped-Beats p t c (some x) q s e = elim (Bool-cases t.sends) [
  | inl sent ↦
      let d : Conn = count_sent t (record c { q = q }) in
      rw (s, sent)
        (Beats-after p t.now t.arm (sent_event x ∷ []) (on_arm t.now d t.arm)
          (on_arm-Beats p t.now d t.arm e))
  | inr lost ↦ rw (s, lost) (λ h. cc)
]

pub turn-Beats :
    (p : Option ℕ) (c : Conn) (t : Turn)
    → t.serializes ≡ true
    → c.pong_deadline ≡ due p
    → Beats p t.now t.arm (turn c t)
unfolding turn
turn-Beats p c t s e = turn_popped-Beats p t c (Queue.pop c.q).0 (Queue.pop c.q).1 s e

abbrev pub TimedOut : Option ℕ → List Turn → Outcome → Type 0
TimedOut p ts (running c out) = Unit {0}
TimedOut p ts (closed reason out) = reason ≡ healthcheck_timeout → TimesOut p ts

TimedOut-resume :
    (p : Option ℕ) (t : Turn) (ts : List Turn) (o : Outcome)
    → ((c : Conn)
        → c.pong_deadline ≡ due (unanswered p t.now t.arm)
        → TimedOut (unanswered p t.now t.arm) ts (run_inner c ts))
    → Beats p t.now t.arm o
    → TimedOut p (t ∷ ts) (resume_with (λ d. run_inner d ts) o)
TimedOut-resume p t ts (running c out) ih b = later (run_inner c ts) (ih c b)
  where
    later :
        (o : Outcome) → TimedOut (unanswered p t.now t.arm) ts o → TimedOut p (t ∷ ts) (after out o)
    later (running d more) h = tt
    later (closed reason more) h = λ e. inr (h e)
TimedOut-resume p t ts (closed reason out) ih b = λ e. inl (b e)

-- If every event serialises, a connection is dropped as unhealthy only at a turn whose instant is
-- ten seconds or more after a ping that no pong has answered since.
pub run_inner-TimedOut :
    (p : Option ℕ) (c : Conn) (ts : List Turn)
    → Serializable ts
    → c.pong_deadline ≡ due p
    → TimedOut p ts (run_inner c ts)
unfolding run_inner
run_inner-TimedOut p c [] s e = tt
run_inner-TimedOut p c (t ∷ ts) s e =
    TimedOut-resume p t ts (turn c t) (λ d. run_inner-TimedOut (unanswered p t.now t.arm) d ts s.1)
      (turn-Beats p c t s.0 e)
