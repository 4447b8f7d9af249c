-- ===== src/State/Graph.antt =====
-- src/state.rs: what sequences of PATCHed transitions can reach.
use ovp_data_api.Base.{◌≡◌, ◌⊎◌, refl, Bool, true, false, arith, List, [], ◌∷◌, any}
use ovp_data_api.State.{
  SessionStatus, recording, uploaded, transcribing, transcribing_failed, transcribed, abandoned,
  deleted, can_transition, status_eq,
}

-- A session that took accepted transitions from `s`, with the statuses it had, newest first.
pub data Trail (s : SessionStatus) : List SessionStatus → SessionStatus → Type 0 where
  here : Trail s (s ∷ []) s
  next :
      {l : List SessionStatus} {t u : SessionStatus}
      → Trail s l t
      → can_transition t u ≡ true
      → Trail s (u ∷ l) u

abbrev pub visited : SessionStatus → List SessionStatus → Bool
visited x l = any (status_eq x) l

abbrev pub Worked : List SessionStatus → Type 0
Worked l = (visited uploaded l ≡ true) × (visited transcribing l ≡ true)

-- What the trail of a session tells at each status.
abbrev pub Told : List SessionStatus → SessionStatus → Type 0
Told l recording = l ≡ recording ∷ []
Told l uploaded = visited uploaded l ≡ true
Told l transcribing = Worked l
Told l transcribing_failed = Worked l
Told l transcribed = Worked l
Told l abandoned = visited transcribing l ≡ false
Told l deleted = Unit {0}

-- `abandoned` is entered from `recording` and `uploaded` alone.
abbrev Untouched : List SessionStatus → SessionStatus → Type 0
Untouched l recording = visited transcribing l ≡ false
Untouched l uploaded = visited transcribing l ≡ false
Untouched l abandoned = visited transcribing l ≡ false
Untouched l _ = Unit {0}

Untouched-next :
    (l : List SessionStatus) (t u : SessionStatus)
    → can_transition t u ≡ true
    → Untouched l t
    → Untouched (u ∷ l) u
unfolding can_transition status_eq
Untouched-next l recording u h i = ground arith
Untouched-next l _ u h i = ground arith

Untouched-Trail : {l : List SessionStatus} {t : SessionStatus} → Trail recording l t → Untouched l t
unfolding status_eq
Untouched-Trail here = refl
Untouched-Trail (next {l = l} {t = t} {u = u} p h) = Untouched-next l t u h (Untouched-Trail p)

Told-next :
    (l : List SessionStatus) (t u : SessionStatus)
    → can_transition t u ≡ true
    → Untouched l t
    → Told l t
    → Told (u ∷ l) u
unfolding can_transition status_eq
Told-next l recording u h n i = ground arith
Told-next l _ u h n i = ground arith

-- Along every sequence of accepted transitions from `recording`: `recording` is never entered
-- again, a session in a transcription status has been uploaded and has been transcribing, an
-- uploaded one has been uploaded, and one that is abandoned was never transcribing.
pub Trail-Told : {l : List SessionStatus} {t : SessionStatus} → Trail recording l t → Told l t
Trail-Told here = refl
Trail-Told (next {l = l} {t = t} {u = u} p h) = Told-next l t u h (Untouched-Trail p) (Trail-Told p)

-- No accepted transition leaves `deleted`, every other status has one to it, and the only status
-- with a transition to itself is `transcribing`.
pub deleted_terminal :
    (s t : SessionStatus)
    → (can_transition deleted t ≡ false)
      × ((s ≡ deleted) ⊎ (can_transition s deleted ≡ true))
      × (can_transition s s ≡ status_eq s transcribing)
unfolding can_transition status_eq
deleted_terminal recording t = ground arith
deleted_terminal _ t = ground arith
