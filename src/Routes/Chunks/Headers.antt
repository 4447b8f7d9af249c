-- ===== src/Routes/Chunks/Headers.antt =====
-- src/routes/chunks.rs: the headers of an upload.
use ovp_data_api.Base.{
  ℕ, ℤ, pos, negsuc, ◌+◌, ◌-◌, ◌*◌, ◌^◌, Text, text, DateTime, ◌==◌, leb, is_digit, Option, none,
  some, List, [], ◌∷◌, Result, ok, err, if◌then◌else◌,
}
use ovp_data_api.Error.{AppError, missing_header, bad_request}

-- The value of a header by its lower-case name, as bytes.
abbrev pub HeaderMap : Type 0
HeaderMap = Text → Option Text

-- What the handler takes from its libraries: HeaderValue::to_str, DateTime::parse_from_rfc3339 and
-- axum::body::to_bytes, which fails on a body above its limit.
pub record RequestLib : Type 0 where
  pub to_str : Text → Option Text
  pub parse_rfc3339 : Text → Option DateTime
  pub to_bytes : List ℕ → ℕ → Option (List ℕ)

pub record ChunkHeaders : Type 0 where
  pub capture_started_at : DateTime
  pub duration_ms : ℕ
  pub client_chunk_id : Text

-- The digits of `str::parse::<i32>`, without the sign.
unfoldable pub parse_digits : ℕ → Text → Option ℕ
parse_digits acc [] = some acc
parse_digits acc (b ∷ s) =
    let rest = parse_digits (acc * 10 + (b - b'0')) s in if is_digit b then rest else none

abbrev pub some_digits : Text → Option ℕ
some_digits [] = none
some_digits (b ∷ s) = parse_digits 0 (b ∷ s)

abbrev pub negated : ℕ → ℤ
negated ℕ.zero = pos 0
negated (ℕ.suc n) = negsuc n

abbrev pub bounded : ℕ → (ℕ → ℤ) → Option ℕ → Option ℤ
bounded limit sign none = none
bounded limit sign (some n) = if leb n limit then some (sign n) else none

-- str::parse::<i32>
unfoldable pub parse_i32 : Text → Option ℤ
unfolding parse_digits
parse_i32 [] = none
parse_i32 (b ∷ s) =
    if b == b'-'
    then bounded (2 ^ 31) negated (some_digits s)
    else if b == b'+'
    then bounded (2 ^ 31 - 1) pos (some_digits s)
    else bounded (2 ^ 31 - 1) pos (some_digits (b ∷ s))

infixl 5 ◌>>=◌
abbrev ◌>>=◌ : {A B : Type 0} → Result AppError A → (A → Result AppError B) → Result AppError B
ok a >>= f = f a
err e >>= f = err e

abbrev pub require : {A : Type 0} → AppError → Option A → Result AppError A
require e none = err e
require e (some a) = ok a

abbrev pub non_negative : ℤ → Result AppError ℕ
non_negative (pos n) = ok n
non_negative (negsuc n) = err bad_request

abbrev pub non_empty : Text → Result AppError Text
non_empty [] = err bad_request
non_empty (b ∷ s) = ok (b ∷ s)

unfoldable pub parse_chunk_headers : RequestLib → HeaderMap → Result AppError ChunkHeaders
unfolding parse_i32
parse_chunk_headers lib h = do
  capture ← require (missing_header (text "X-Capture-Started-At")) (h (text "x-capture-started-at"))
  capture_str ← require bad_request (lib.to_str capture)
  capture_started_at ← require bad_request (lib.parse_rfc3339 capture_str)
  duration ← require (missing_header (text "X-Duration-Ms")) (h (text "x-duration-ms"))
  duration_raw ← require bad_request (lib.to_str duration)
  duration_signed ← require bad_request (parse_i32 duration_raw)
  duration_ms ← non_negative duration_signed
  client ← require (missing_header (text "X-Client-Chunk-Id")) (h (text "x-client-chunk-id"))
  client_str ← require bad_request (lib.to_str client)
  client_chunk_id ← non_empty client_str
  ok (record {
    capture_started_at = capture_started_at;
    duration_ms = duration_ms;
    client_chunk_id = client_chunk_id;
  })
