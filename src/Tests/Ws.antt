-- ===== src/Tests/Ws.antt =====
-- Runs of a subscriber's connection, of its queue and subscriptions, and of the gauge.
use ovp_data_api.Base.{
  ◌≡◌, refl, arith, ◌*◌, ◌||◌, true, ℕ, pos, text, Text, none, some, List, [], ◌∷◌, ◌++◌,
}
use ovp_data_api.State.{recording, uploaded}
use ovp_data_api.Events.{Event, session_state_changed}
use ovp_data_api.Metrics.{Metrics, get}
use ovp_data_api.Metrics
use ovp_data_api.Ws.Filter.{Filter, SubscriptionSet, matches, contains}
use ovp_data_api.Ws.Filter
use ovp_data_api.Ws.Filter.Meaning.{asks, matches-subscribe}
use ovp_data_api.Ws.Queue.{DropOldestQueue}
use ovp_data_api.Ws.Queue.Suffix.{newest, IsBounded, push_all, push_all-newest}
use ovp_data_api.Ws.Session.{
  Conn, Turn, Arm, connect, run_inner, received, event, from_peer, message, text_frame, subscribe,
  tick, deadline, second,
}
use ovp_data_api.Ws.Session.Quiet.{Keeps, connect-IsQuiet, run_inner-Keeps}
use ovp_data_api.Ws.Session.Delivery.{Delivers, wanted, run_inner-Delivers}
use ovp_data_api.Ws.Session.Heartbeat.{TimedOut, run_inner-TimedOut}
use ovp_data_api.Ws.Session.Ending.{Ends, run_inner-Ends}

abbrev happened : Event
happened =
    session_state_changed 5
      (record { session_id = 7; guild_id = pos 3; old = recording; new = uploaded })

abbrev any_session : Filter
any_session = record { guild = none; session = none }

abbrev names : List Text
names = text "session_state_changed" ∷ []

abbrev turn_at : ℕ → Arm → Turn
turn_at now arm = record { serializes = true; sends = true; sampled = none; arm = arm; now = now }

-- A subscription, an event that it wants, a ping, and its deadline.
abbrev turns : List Turn
turns =
    turn_at second (from_peer (message (text_frame (some (subscribe names any_session)))))
    ∷ turn_at (2 * second) (received (event happened))
    ∷ turn_at (30 * second) (tick true)
    ∷ turn_at (41 * second) deadline
    ∷ []

abbrev conn : Conn
conn = connect 64 0 Metrics.new

run_inner-Keeps_example : Keeps (run_inner conn turns)
run_inner-Keeps_example = run_inner-Keeps conn turns (connect-IsQuiet 64 0 Metrics.new)

run_inner-Delivers_example :
    Delivers (conn.q.inner ++ wanted conn.subs turns) (run_inner conn turns)
run_inner-Delivers_example =
    run_inner-Delivers conn turns (connect-IsQuiet 64 0 Metrics.new)
      (refl, (refl, (refl, (refl, tt))))

run_inner-TimedOut_example : TimedOut none turns (run_inner conn turns)
unfolding connect
run_inner-TimedOut_example =
    run_inner-TimedOut none conn turns (refl, (refl, (refl, (refl, tt)))) refl

abbrev queue : DropOldestQueue
queue = record { cap = 2; inner = []; dropped = 0 }

queue-IsBounded : IsBounded queue
queue-IsBounded = record { room = omega arith; fits = omega arith }

abbrev three : List Event
three = happened ∷ happened ∷ happened ∷ []

push_all-newest_example :
    ((push_all queue three).inner ≡ newest 2 three) × IsBounded (push_all queue three)
push_all-newest_example = push_all-newest queue three queue-IsBounded

matches-subscribe_example :
    matches (Filter.subscribe Filter.empty names any_session) happened
    ≡ (matches Filter.empty happened || asks names any_session happened)
matches-subscribe_example = matches-subscribe Filter.empty names any_session happened

-- A ping, an event and a text frame after it, and the deadline; what would come then is not run.
run_inner-Ends_example : Ends (
    run_inner conn (
      turn_at (30 * second) (tick true)
        ∷ (turn_at (31 * second) (received (event happened))
            ∷ turn_at (32 * second) (received (event happened))
            ∷ [])
      ++ turn_at (41 * second) deadline ∷ turns))
run_inner-Ends_example =
    run_inner-Ends conn (turn_at (30 * second) (tick true))
      (turn_at (31 * second) (received (event happened))
        ∷ turn_at (32 * second) (received (event happened))
        ∷ [])
      (turn_at (41 * second) deadline) turns
      (refl, (refl, (refl, (refl, (refl, (refl, (refl, (refl, tt)))))))) refl (refl, (refl, tt))
      refl (omega arith)
