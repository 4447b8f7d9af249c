-- ===== src/Ids/Shape.antt =====
-- src/ids.rs: what an accepted pseudo_id looks like.
use ovp_data_api.Base.{
  ℕ, Text, text_eq, text_eq_iff, ok, ◌≡◌, ◌↔◌, ◌⊎◌, arith, true, false, length, all, All, [], ◌∷◌,
  ◌≤◌, inl, inr, Bool-cases, refl,
}
use ovp_data_api.Ids.{
  PseudoId, mixed_pseudo_id, is_lower_hex, is_valid_pseudo_id, new, new_or_mixed, is_mixed,
  pseudo_eq, etag_eq, ETag, decode, encode, from_str, to_string, serialize, deserialize,
}

-- `0` to `9` or `a` to `f`
abbrev pub IsLowerHex : ℕ → Type 0
IsLowerHex b = ((b'0' ≤ b) × (b ≤ b'9')) ⊎ ((b'a' ≤ b) × (b ≤ b'f'))

-- 24 lowercase hex digits
abbrev pub IsPseudonym : Text → Type 0
IsPseudonym s = (length s ≡ 24) × All IsLowerHex s

all-IsLowerHex : (s : Text) → all is_lower_hex s ≡ true → All IsLowerHex s
unfolding is_lower_hex
all-IsLowerHex [] h = tt
all-IsLowerHex (b ∷ s) h = (ground arith, all-IsLowerHex s (ground arith))

lower_hex-all : (s : Text) → All IsLowerHex s → all is_lower_hex s ≡ true
unfolding is_lower_hex
lower_hex-all [] h = refl
lower_hex-all (b ∷ s) h = ground (arith, lower_hex-all s h.1)

pub is_valid_iff : (s : Text) → (is_valid_pseudo_id s ≡ true) ↔ IsPseudonym s
unfolding is_valid_pseudo_id
is_valid_iff s =
    (λ h. (ground arith, all-IsLowerHex s (ground arith)), λ h. ground (arith, lower_hex-all s h.1))

pub mixed_invalid : is_valid_pseudo_id mixed_pseudo_id ≡ false
unfolding is_valid_pseudo_id
mixed_invalid = refl

new-ok : (raw : Text) (p : PseudoId) → (new raw ≡ ok p) ↔ (IsPseudonym raw × (p.as_str ≡ raw))
unfolding new
new-ok raw p = elim (Bool-cases (is_valid_pseudo_id raw)) [
  | inl e ↦ rw e (λ h. ((is_valid_iff raw).0 e, ground arith), λ h. ground arith)
  | inr e ↦ rw e (λ h. cc, λ h. ground (arith, (is_valid_iff raw).1 h.0))
]

new_or_mixed-ok :
    (raw : Text) (p : PseudoId)
    → (new_or_mixed raw ≡ ok p) ↔ ((IsPseudonym raw ⊎ (raw ≡ mixed_pseudo_id)) × (p.as_str ≡ raw))
unfolding new_or_mixed
new_or_mixed-ok raw p = elim (Bool-cases (text_eq raw mixed_pseudo_id)) [
  | inl e ↦
      rw e (λ h. (inr ((text_eq_iff raw mixed_pseudo_id).0 e), ground arith), λ h. ground arith)
  | inr e ↦ elim (Bool-cases (is_valid_pseudo_id raw)) [
    | inl v ↦ rw (e, v) (λ h. (inl ((is_valid_iff raw).0 v), ground arith), λ h. ground arith)
    | inr v ↦
        rw (e, v)
          (
            λ h. cc,
            λ h. elim h.0 [
              | inl s ↦ ground (arith, (is_valid_iff raw).1 s)
              | inr m ↦ ground (arith, (text_eq_iff raw mixed_pseudo_id).1 m)
            ],
          )
  ]
]

new-mixed : (raw : Text) (p : PseudoId) → new raw ≡ ok p → is_mixed p ≡ false
unfolding new is_mixed
new-mixed raw p h = ground (arith, text_eq_iff raw mixed_pseudo_id, mixed_invalid)

-- `new` accepts exactly the texts of 24 lowercase hex digits and keeps them as they are;
-- `new_or_mixed` accepts those and `mixed`; and what `new` accepts is never `mixed`.
pub new-or-mixed :
    (raw : Text) (p : PseudoId)
    → ((new raw ≡ ok p) ↔ (IsPseudonym raw × (p.as_str ≡ raw)))
      × ((new_or_mixed raw ≡ ok p)
          ↔ ((IsPseudonym raw ⊎ (raw ≡ mixed_pseudo_id)) × (p.as_str ≡ raw)))
      × (new raw ≡ ok p → is_mixed p ≡ false)
new-or-mixed raw p = (new-ok raw p, new_or_mixed-ok raw p, new-mixed raw p)

-- An id that the database gives back is the one that was written to it. What is printed of it is
-- read back by `from_str` exactly if it is a pseudonym, and what is serialised of it is read back
-- exactly if it is a pseudonym or `mixed`.
pub decode-from_str :
    (p : PseudoId)
    → (decode (encode p) ≡ p)
      × ((from_str (to_string p) ≡ ok p) ↔ IsPseudonym p.as_str)
      × ((deserialize (serialize p) ≡ ok p) ↔ (IsPseudonym p.as_str ⊎ (p.as_str ≡ mixed_pseudo_id)))
decode-from_str p =
    let by_new = new-ok p.as_str p in
    let by_mixed = new_or_mixed-ok p.as_str p in
    (
      refl,
      (λ h. (by_new.0 h).0, λ h. by_new.1 (h, refl)),
      (λ h. (by_mixed.0 h).0, λ h. by_mixed.1 (h, refl)),
    )

pub pseudo_eq_iff : (p q : PseudoId) → (pseudo_eq p q ≡ true) ↔ (p ≡ q)
unfolding pseudo_eq
pseudo_eq_iff p q = ground (arith, text_eq_iff p.as_str q.as_str)

pub etag_eq_iff : (a b : ETag) → (etag_eq a b ≡ true) ↔ (a ≡ b)
unfolding etag_eq
etag_eq_iff a b = ground (arith, text_eq_iff a.as_str b.as_str)
