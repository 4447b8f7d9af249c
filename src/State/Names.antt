-- ===== src/State/Names.antt =====
-- src/state.rs: the status names that `as_str` writes and `from_str` reads.
use ovp_data_api.Base.{Text, text, text_eq_iff, ok, ◌≡◌, ◌↔◌, refl, arith, true}
use ovp_data_api.State.{
  SessionStatus, recording, as_str, from_str, to_string, decode, encode, status_eq,
}

pub from_str-as_str : (s : SessionStatus) → from_str (as_str s) ≡ ok s
unfolding from_str as_str
from_str-as_str recording = refl
from_str-as_str _ = refl

as_str-from_str : (t : Text) (s : SessionStatus) → from_str t ≡ ok s → as_str s ≡ t
unfolding from_str as_str
as_str-from_str t s h = ground (
  arith,
  text_eq_iff t (text "recording"),
  text_eq_iff t (text "uploaded"),
  text_eq_iff t (text "transcribing"),
  text_eq_iff t (text "transcribing_failed"),
  text_eq_iff t (text "transcribed"),
  text_eq_iff t (text "abandoned"),
  text_eq_iff t (text "deleted"),
)

from_str_lem : (t : Text) (s : SessionStatus) → (from_str t ≡ ok s) ↔ (as_str s ≡ t)
from_str_lem t s = (as_str-from_str t s, λ e. ground (arith, from_str-as_str s))

-- A text parses to a status exactly when it is that status's name, the one that is printed, so the
-- names round trip both ways and no two statuses share one; a column of the database reads as a
-- status exactly when it holds what is written for that status.
pub from_str_iff :
    (t : Text) (s : SessionStatus)
    → ((from_str t ≡ ok s) ↔ (to_string s ≡ t)) × ((decode t ≡ ok s) ↔ (encode s ≡ t))
unfolding to_string decode encode
from_str_iff t s = (from_str_lem t s, from_str_lem t s)

pub status_eq_sound : (s t : SessionStatus) → status_eq s t ≡ true → s ≡ t
unfolding status_eq
status_eq_sound s t h = ground arith

pub status_eq_refl : (s : SessionStatus) → status_eq s s ≡ true
unfolding status_eq
status_eq_refl recording = refl
status_eq_refl _ = refl
