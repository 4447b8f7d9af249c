-- ===== src/Base/Decimal.antt =====
-- Printing a number in decimal, as `{}` and `{:06}` do, and reading it back.
use Prim.Native.Nat.{ℕ, zero, suc, ◌+◌, ◌*◌, ◌-◌, ◌/◌, ◌%◌, ◌<◌}
use mathlib.Core.Path.{◌≡◌, refl, ◌∙◌}
use mathlib.Core.Bool.{Bool, false, ◌&&◌}
use mathlib.Core.List.{[], ◌∷◌, ◌++◌, append_assoc}
use mathlib.Core.Logic.{inl, inr}
use native.Mathlib.Omega.{arith}
use ovp_data_api.Base.Tests.{ltb, leb, if◌then◌else◌, Bool-cases}
use ovp_data_api.Base.Lists.{length}
use ovp_data_api.Base.Bytes.{Text}

-- The digits of `n` in front of `acc`.
unfoldable pub digits_before : ℕ → ℕ → Text → Text
digits_before zero n acc = acc
digits_before (suc f) n acc =
    let rest = digits_before f (n / 10) ((b'0' + n % 10) ∷ acc) in
    if ltb n 10 then (b'0' + n) ∷ acc else rest

unfoldable pub decimal : ℕ → Text
unfolding digits_before
decimal n = digits_before (suc n) n []

abbrev pub zeros : ℕ → Text
zeros zero = []
zeros (suc n) = b'0' ∷ zeros n

-- `{:06}`
unfoldable pub padded : ℕ → Text
padded n = zeros (6 - length (decimal n)) ++ decimal n

abbrev pub is_digit : ℕ → Bool
is_digit b = leb b'0' b && leb b b'9'

-- Reads digits until another byte.
abbrev pub read_digits : ℕ → Text → ℕ
read_digits acc [] = acc
read_digits acc (b ∷ s) =
    let rest = read_digits (acc * 10 + (b - b'0')) s in if is_digit b then rest else acc

abbrev read_all : ℕ → Text → ℕ
read_all acc [] = acc
read_all acc (b ∷ s) = read_all (acc * 10 + (b - b'0')) s

-- Reading the digits of `n` and then `s` is reading `s` from a value with `n` at its end.
read-digits_before :
    (f n : ℕ) (s : Text) → n < f → read_digits 0 (digits_before f n s) ≡ read_digits n s
unfolding digits_before
read-digits_before zero n s h = elim h [ ]
read-digits_before (suc f) n s h = elim (Bool-cases (ltb n 10)) [
  | inl small ↦ rw small (ground arith)
  | inr large ↦
      rw large (read-digits_before f (n / 10) ((b'0' + n % 10) ∷ s) (ground arith) ∙ ground arith)
]

digits_before-append :
    (f n : ℕ) (s t : Text) → digits_before f n s ++ t ≡ digits_before f n (s ++ t)
unfolding digits_before
digits_before-append zero n s t = refl
digits_before-append (suc f) n s t =
    ground (arith, digits_before-append f (n / 10) ((b'0' + n % 10) ∷ s) t)

read-zeros : (k : ℕ) (s : Text) → read_digits 0 (zeros k ++ s) ≡ read_digits 0 s
read-zeros zero s = refl
read-zeros (suc k) s = read-zeros k s

decimal-append : (n : ℕ) (t : Text) → decimal n ++ t ≡ digits_before (suc n) n t
unfolding decimal
decimal-append n t = digits_before-append (suc n) n [] t

-- A padded number in front of a byte that is no digit reads back.
pub read-padded : (n b : ℕ) (s : Text) → is_digit b ≡ false → read_digits 0 (padded n ++ b ∷ s) ≡ n
unfolding padded
read-padded n b s h = rw (
  append_assoc,
  read-zeros,
  decimal-append,
  read-digits_before (suc n) n (b ∷ s) (omega arith),
  h,
)
