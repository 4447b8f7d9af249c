-- ===== src/State.antt =====
-- src/state.rs: the statuses of a session, their names, and the table of transitions that a PATCH
-- may take.
pub mod Names
pub mod Graph
use ovp_data_api.Base.{Text, text, text_eq, Bool, true, false, Result, ok, err, if◌then◌else◌}

pub data SessionStatus : Type 0 where
  recording uploaded transcribing transcribing_failed transcribed abandoned deleted : SessionStatus

unfoldable pub as_str : SessionStatus → Text
as_str recording = text "recording"
as_str uploaded = text "uploaded"
as_str transcribing = text "transcribing"
as_str transcribing_failed = text "transcribing_failed"
as_str transcribed = text "transcribed"
as_str abandoned = text "abandoned"
as_str deleted = text "deleted"

-- UnknownStatus(pub String)
pub record UnknownStatus : Type 0 where
  pub value : Text

unfoldable pub from_str : Text → Result UnknownStatus SessionStatus
unfolding text_eq
from_str s =
    if text_eq s (text "recording")
    then ok recording
    else if text_eq s (text "uploaded")
    then ok uploaded
    else if text_eq s (text "transcribing")
    then ok transcribing
    else if text_eq s (text "transcribing_failed")
    then ok transcribing_failed
    else if text_eq s (text "transcribed")
    then ok transcribed
    else if text_eq s (text "abandoned")
    then ok abandoned
    else if text_eq s (text "deleted")
    then ok deleted
    else err (record { value = s })

-- Display
unfoldable pub to_string : SessionStatus → Text
to_string s = as_str s

-- sqlx::Decode of a TEXT column
unfoldable pub decode : Text → Result UnknownStatus SessionStatus
decode s = from_str s

-- sqlx::Encode
unfoldable pub encode : SessionStatus → Text
encode s = as_str s

-- `==` of the derived PartialEq
unfoldable pub status_eq : SessionStatus → SessionStatus → Bool
status_eq recording recording = true
status_eq uploaded uploaded = true
status_eq transcribing transcribing = true
status_eq transcribing_failed transcribing_failed = true
status_eq transcribed transcribed = true
status_eq abandoned abandoned = true
status_eq deleted deleted = true
status_eq _ _ = false

unfoldable pub can_transition : SessionStatus → SessionStatus → Bool
can_transition recording uploaded = true
can_transition recording abandoned = true
can_transition recording deleted = true
can_transition uploaded transcribing = true
can_transition uploaded abandoned = true
can_transition uploaded deleted = true
can_transition transcribing transcribing = true
can_transition transcribing transcribed = true
can_transition transcribing transcribing_failed = true
can_transition transcribing deleted = true
can_transition transcribing_failed transcribing = true
can_transition transcribing_failed deleted = true
can_transition transcribed deleted = true
can_transition abandoned deleted = true
can_transition _ _ = false
