-- ===== src/Storage/S3/Deletion.antt =====
-- src/storage/s3.rs: what a deletion of many keys leaves in the bucket.
use ovp_data_api.Base.{
  ℕ, ◌+◌, ◌%◌, ◌^◌, ◌<◌, ◌≡◌, arith, true, false, Bool-cases, inl, inr, Text, text_eq, text_eq_iff,
  List, [], ◌∷◌, length, any, ok, err, if◌then◌else◌,
}
use ovp_data_api.Error.{not_found}
use ovp_data_api.Storage.S3.{Bucket, gone, get, delete_keys, delete_many}

-- What the service promises of a deletion: a key whose deletion it confirms answers 404 from then
-- on, and a deletion, confirmed or not, leaves what the other keys answer.
pub record IsConsistent {St : Type 0} (bucket : Bucket St) : Type 0 where
  pub page : List ℕ
  pub confirmed :
      (k : Text) (s : St)
      → gone bucket (bucket.delete_object k s).0 ≡ true
      → bucket.get_object k (bucket.delete_object k s).1 ≡ ok (404, page)
  pub others :
      (k j : Text) (s : St)
      → text_eq k j ≡ false
      → bucket.get_object j (bucket.delete_object k s).1 ≡ bucket.get_object j s

module _ {St : Type 0} (bucket : Bucket St) (consistent : IsConsistent bucket) where
  open consistent use {page, confirmed, others}

  get-delete_object :
      (k j : Text) (s : St)
      → gone bucket (bucket.delete_object k s).0 ≡ true
      → get bucket j (bucket.delete_object k s).1
        ≡ (if text_eq k j then err not_found else get bucket j s)
  unfolding get
  get-delete_object k j s h = ground (arith, confirmed k s h, others k j s, text_eq_iff k j)

  swept :
      (ks : List Text) (n : ℕ) (s s' : St) (m : ℕ)
      → n < 2 ^ 32
      → delete_keys bucket ks n s ≡ (ok m, s')
      → (m ≡ (n + length ks) % 2 ^ 32)
        × ((j : Text)
            → get bucket j s'
              ≡ (if any (λ k. text_eq k j) ks then err not_found else get bucket j s))
  unfolding delete_keys
  swept [] n s s' m small h = (ground arith, λ j. ground arith)
  swept (k ∷ ks) n s s' m small h =
      let r = bucket.delete_object k s in
      elim (Bool-cases (gone bucket r.0)) [
        | inl e ↦
            let (count, found) =
              swept ks ((n + 1) % 2 ^ 32) r.1 s' m (omega arith) (ground arith) in
            (omega arith, λ j. ground (arith, found j, get-delete_object k j s e))
        | inr e ↦ ground arith
      ]

  -- Where a deletion of many keys answers, the count is that of the keys, in 32 bits, every one of
  -- the keys answers not found afterwards, and every other key answers what it did. The service
  -- must keep what it promises of a single deletion.
  pub get-delete_many_ok :
      (ks : List Text) (s s' : St) (n : ℕ)
      → delete_many bucket ks s ≡ (ok n, s')
      → (n ≡ length ks % 2 ^ 32)
        × ((j : Text)
            → get bucket j s'
              ≡ (if any (λ k. text_eq k j) ks then err not_found else get bucket j s))
  unfolding delete_many
  get-delete_many_ok ks s s' n h =
      let (count, found) = swept ks 0 s s' n (omega arith) h in (omega arith, found)
