-- ===== src/Ids.antt =====
-- src/ids.rs: pseudonymous ids, client ids and entity tags.
pub mod Shape
use ovp_data_api.Base.{
  ℕ, Text, text, text_eq, Bool, true, false, ◌&&◌, ◌||◌, Result, ok, err, if◌then◌else◌, leb, ◌==◌,
  length, all, List,
}

abbrev pub mixed_pseudo_id : Text
mixed_pseudo_id = text "mixed"

pub data PseudoIdError : Type 0 where
  invalid : PseudoIdError

-- PseudoId(String)
pub record PseudoId : Type 0 where
  pub as_str : Text

-- b.is_ascii_digit() || (b'a'..=b'f').contains(&b)
unfoldable pub is_lower_hex : ℕ → Bool
is_lower_hex b = (leb b'0' b && leb b b'9') || (leb b'a' b && leb b b'f')

unfoldable pub is_valid_pseudo_id : Text → Bool
is_valid_pseudo_id s = length s == 24 && all is_lower_hex s

unfoldable pub new : Text → Result PseudoIdError PseudoId
new raw = if is_valid_pseudo_id raw then ok (record { as_str = raw }) else err invalid

unfoldable pub new_or_mixed : Text → Result PseudoIdError PseudoId
new_or_mixed raw =
    if text_eq raw mixed_pseudo_id || is_valid_pseudo_id raw
    then ok (record { as_str = raw })
    else err invalid

unfoldable pub is_mixed : PseudoId → Bool
is_mixed p = text_eq p.as_str mixed_pseudo_id

abbrev pub into_inner : PseudoId → Text
into_inner p = p.as_str

-- Display
abbrev pub to_string : PseudoId → Text
to_string p = p.as_str

-- FromStr
abbrev pub from_str : Text → Result PseudoIdError PseudoId
from_str = new

-- What the derived Serialize writes of a transparent type is its text.
abbrev pub serialize : PseudoId → Text
serialize p = p.as_str

abbrev pub deserialize : Text → Result PseudoIdError PseudoId
deserialize = new_or_mixed

-- sqlx::Decode of a TEXT column, which takes every text
abbrev pub decode : Text → PseudoId
decode s = record { as_str = s }

-- sqlx::Encode
abbrev pub encode : PseudoId → Text
encode p = p.as_str

-- `==` of the derived PartialEq
unfoldable pub pseudo_eq : PseudoId → PseudoId → Bool
pseudo_eq p q = text_eq p.as_str q.as_str

-- ClientId(pub String)
pub record ClientId : Type 0 where
  pub as_str : Text

-- ETag(pub String)
pub record ETag : Type 0 where
  pub as_str : Text

unfoldable pub etag_eq : ETag → ETag → Bool
etag_eq a b = text_eq a.as_str b.as_str

-- ETag::new_random, of the bytes that the generator fills the buffer with; `hex` is hex::encode.
abbrev pub new_random : (List ℕ → Text) → List ℕ → ETag
new_random hex buf = record { as_str = hex buf }

-- Display of a tag
abbrev pub etag_to_string : ETag → Text
etag_to_string t = t.as_str

-- sqlx::Decode and sqlx::Encode of a tag
abbrev pub decode_etag : Text → ETag
decode_etag s = record { as_str = s }

abbrev pub encode_etag : ETag → Text
encode_etag t = t.as_str
