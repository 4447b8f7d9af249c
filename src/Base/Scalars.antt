-- ===== src/Base/Scalars.antt =====
-- Scalar types of the libraries that the program only stores and compares, and the result type of
-- code that may fail.
use Prim.Native.Nat.{ℕ}

-- uuid::Uuid, as its 128-bit value
abbrev pub Uuid : Type 0
Uuid = ℕ

-- chrono::DateTime<Utc>, as microseconds since the epoch (the resolution of TIMESTAMPTZ)
abbrev pub DateTime : Type 0
DateTime = ℕ

-- std::result::Result
pub data Result (E A : Type 0) : Type 0 where
  ok : A → Result E A
  err : E → Result E A
