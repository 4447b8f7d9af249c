-- ===== src/Ws/Session/Ending.antt =====
-- src/routes/ws/session.rs: the loop of a connection whose ping is not answered ends.
use ovp_data_api.Base.{
  ℕ, ◌+◌, ◌≤◌, Bool, true, false, List, [], ◌∷◌, ◌++◌, All, ◌≡◌, refl, arith, Option, none, some,
  Bool-cases, inl, inr, ap, ◌∙◌, leb,
}
use ovp_data_api.Events.{Event}
use ovp_data_api.Ws.Queue
use ovp_data_api.Ws.Queue.{DropOldestQueue}
use ovp_data_api.Ws.Session.Delivery.{Serializable}
use ovp_data_api.Ws.Session.Heartbeat.{unanswered, due, Beats, turn-Beats}
use ovp_data_api.Ws.Session.{
  Conn, Turn, Arm, Outcome, running, closed, Sent, Message, received, from_peer, tick, deadline,
  message, pong, ended, failed, text_frame, close, binary, on_arm, turn, turn_popped, count_sent,
  sent_event, run_inner, after, resume_with, pong_grace,
}

abbrev pub Ends : Outcome → Type 0
Ends (closed reason out) = Unit
Ends (running c out) = ⊥

-- Anything but a pong and the next ping.
abbrev pub is_silent : Arm → Bool
is_silent (received r) = true
is_silent (from_peer ended) = true
is_silent (from_peer failed) = true
is_silent (from_peer (message (text_frame f))) = true
is_silent (from_peer (message pong)) = false
is_silent (from_peer (message Message.ping)) = true
is_silent (from_peer (message close)) = true
is_silent (from_peer (message binary)) = true
is_silent (tick sent) = false
is_silent deadline = true

unanswered-silent : (p : Option ℕ) (now : ℕ) (a : Arm) → is_silent a ≡ true → unanswered p now a ≡ p
unanswered-silent p now (received r) h = refl
unanswered-silent p now (from_peer ended) h = refl
unanswered-silent p now (from_peer failed) h = refl
unanswered-silent p now (from_peer (message (text_frame f))) h = refl
unanswered-silent p now (from_peer (message pong)) h = cc
unanswered-silent p now (from_peer (message Message.ping)) h = refl
unanswered-silent p now (from_peer (message close)) h = refl
unanswered-silent p now (from_peer (message binary)) h = refl
unanswered-silent p now (tick sent) h = cc
unanswered-silent p now deadline h = refl

Ends-after : (out : List Sent) (o : Outcome) → Ends o → Ends (after out o)
Ends-after out (closed reason more) h = h
Ends-after out (running c more) h = h

-- What holds of the connection with which the loop goes on.
abbrev Then : (Conn → Type 0) → Outcome → Type 0
Then P (closed reason out) = Unit
Then P (running c out) = P c

Then-after : (P : Conn → Type 0) (out : List Sent) (o : Outcome) → Then P o → Then P (after out o)
Then-after P out (closed reason more) h = h
Then-after P out (running c more) h = h

Beats-Then :
    (p : Option ℕ) (now : ℕ) (a : Arm) (o : Outcome)
    → Beats p now a o
    → Then (λ c. c.pong_deadline ≡ due (unanswered p now a)) o
Beats-Then p now a (closed reason out) b = tt
Beats-Then p now a (running c out) b = b

Ends-resume_with :
    (P : Conn → Type 0) (rest : Conn → Outcome) (o : Outcome)
    → Then P o
    → ((c : Conn) → P c → Ends (rest c))
    → Ends (resume_with rest o)
Ends-resume_with P rest (closed reason out) b h = tt
Ends-resume_with P rest (running c out) b h = Ends-after out (rest c) (h c b)

abbrev Due : ℕ → Conn → Type 0
Due d c = c.pong_deadline ≡ some d

on_arm-Due :
    (now : ℕ) (c : Conn) (a : Arm) → a ≡ tick true → Then (Due (now + pong_grace)) (on_arm now c a)
unfolding on_arm
on_arm-Due now c a h = rw h refl

turn_popped-Due :
    (t : Turn) (c : Conn) (x : Option Event) (q : DropOldestQueue)
    → t.serializes ≡ true
    → t.arm ≡ tick true
    → Then (Due (t.now + pong_grace)) (turn_popped t c (x, q))
unfolding turn_popped count_sent
turn_popped-Due t c none q s a = on_arm-Due t.now (record c { q = q }) t.arm a
turn_popped-Due t c (some x) q s a = elim (Bool-cases t.sends) [
  | inl sent ↦
      let c' : Conn = count_sent t (record c { q = q }) in
      rw (s, sent)
        (Then-after (Due (t.now + pong_grace)) (sent_event x ∷ []) (on_arm t.now c' t.arm)
          (on_arm-Due t.now c' t.arm a))
  | inr lost ↦ rw (s, lost) tt
]

on_arm-Ends :
    (d : ℕ) (now : ℕ) (c : Conn) (a : Arm)
    → a ≡ deadline
    → c.pong_deadline ≡ some d
    → d ≤ now
    → Ends (on_arm now c a)
unfolding on_arm
on_arm-Ends d now c a h e late =
    let reached : leb d now ≡ true = ground arith in rw (h, e, reached) tt

turn_popped-Ends :
    (d : ℕ) (t : Turn) (c : Conn) (x : Option Event) (q : DropOldestQueue)
    → t.serializes ≡ true
    → t.arm ≡ deadline
    → c.pong_deadline ≡ some d
    → d ≤ t.now
    → Ends (turn_popped t c (x, q))
unfolding turn_popped count_sent
turn_popped-Ends d t c none q s a e late = on_arm-Ends d t.now (record c { q = q }) t.arm a e late
turn_popped-Ends d t c (some x) q s a e late = elim (Bool-cases t.sends) [
  | inl sent ↦
      let c' : Conn = count_sent t (record c { q = q }) in
      rw (s, sent)
        (Ends-after (sent_event x ∷ []) (on_arm t.now c' t.arm)
          (on_arm-Ends d t.now c' t.arm a e late))
  | inr lost ↦ rw (s, lost) tt
]

Ends-stop : (rest : Conn → Outcome) (o : Outcome) → Ends o → Ends (resume_with rest o)
Ends-stop rest (closed reason out) h = tt
Ends-stop rest (running c out) h = elim h [ ]

-- The turns after a ping at `sent_at`.
waiting :
    (sent_at : ℕ) (c : Conn) (ts : List Turn) (t : Turn) (us : List Turn)
    → Serializable (ts ++ t ∷ us)
    → c.pong_deadline ≡ some (sent_at + pong_grace)
    → All (λ u. is_silent u.arm ≡ true) ts
    → t.arm ≡ deadline
    → sent_at + pong_grace ≤ t.now
    → Ends (run_inner c (ts ++ t ∷ us))
unfolding run_inner turn
waiting sent_at c [] t us s e h a late =
    Ends-stop (λ d. run_inner d us) (turn c t)
      (turn_popped-Ends (sent_at + pong_grace) t c (Queue.pop c.q).0 (Queue.pop c.q).1 s.0 a e late)
waiting sent_at c (u ∷ ts) t us s e h a late =
    Ends-resume_with (λ d. d.pong_deadline ≡ due (unanswered (some sent_at) u.now u.arm))
      (λ d. run_inner d (ts ++ t ∷ us)) (turn c u)
      (Beats-Then (some sent_at) u.now u.arm (turn c u) (turn-Beats (some sent_at) c u s.0 e))
      λ d k.
        waiting sent_at d ts t us s.1
          (k ∙ ap due (unanswered-silent (some sent_at) u.now u.arm h.0)) h.1 a late

-- If every event serialises, a connection that has sent a ping ends, whatever else happens on it:
-- unless a pong or the next ping comes before, at the latest with the first turn of the deadline
-- ten seconds after the ping.
pub run_inner-Ends :
    (c : Conn) (p : Turn) (ts : List Turn) (t : Turn) (us : List Turn)
    → Serializable (p ∷ ts ++ t ∷ us)
    → p.arm ≡ tick true
    → All (λ u. is_silent u.arm ≡ true) ts
    → t.arm ≡ deadline
    → p.now + pong_grace ≤ t.now
    → Ends (run_inner c (p ∷ ts ++ t ∷ us))
unfolding run_inner turn
run_inner-Ends c p ts t us s sent h a late =
    Ends-resume_with (Due (p.now + pong_grace)) (λ d. run_inner d (ts ++ t ∷ us)) (turn c p)
      (turn_popped-Due p c (Queue.pop c.q).0 (Queue.pop c.q).1 s.0 sent)
      λ d e. waiting p.now d ts t us s.1 e h a late
