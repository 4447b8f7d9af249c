-- ===== src/Db/AuditLog/Newest.antt =====
-- src/db/audit_log.rs: what a query of the log gives.
use ovp_data_api.Base.{
  ℕ, zero, suc, ◌≤◌, pos, negsuc, List, [], ◌∷◌, ◌++◌, take, drop, length, select, unwrap_or,
  order_by-perm, order_by-IsOrdered, IsOrdered, ok, ◌≡◌, ◌⊎◌, inl, inr, refl, ap, arith, DateTime,
  All, All-map, All-order_by, All-select, select-delete-perm, delete, All-delete_unselected,
  ℤ-cases, true, false, Option, none, some, Text, text_eq_iff, Uuid, ◌↔◌, err,
}
use ovp_data_api.Error.{database}
use mathlib.Core.List.{Perm}
use mathlib.Core.List.Perm
use ovp_data_api.Db.{Db, AuditRow}
use ovp_data_api.Db.AuditLog.{
  QueryFilter, is_session, is_type, is_since, wanted, newer, newest_first, query,
}

module _ {A : Type 0} where
  take-append-drop : (n : ℕ) (xs : List A) → take n xs ++ drop n xs ≡ xs
  take-append-drop zero xs = refl
  take-append-drop (suc n) [] = refl
  take-append-drop (suc n) (x ∷ xs) = ap (λ ys. x ∷ ys) (take-append-drop n xs)

  -- What is taken is of the length asked for, or it is all.
  take-length :
      (n : ℕ) (xs : List A)
      → (length (take n xs) ≡ n) ⊎ ((length (take n xs) ≤ n) × (drop n xs ≡ []))
  take-length zero xs = inl refl
  take-length (suc n) [] = inr (omega arith, refl)
  take-length (suc n) (x ∷ xs) = elim (take-length n xs) [
    | inl e ↦ inl (omega arith)
    | inr (h, e) ↦ inr (omega arith, e)
  ]

-- What a part of the filter asks for: one that is left out asks for nothing.
abbrev Asks : {A : Type 0} → Option A → (A → Type 0) → Type 0
Asks none P = Unit
Asks (some a) P = P a

pub record IsAsked (f : QueryFilter) (r : AuditRow) : Type 0 where
  pub session : Asks f.session_id (λ id. r.session_id ≡ some id)
  pub resource : Asks f.resource_type (λ t. r.resource_type ≡ t)
  pub time : Asks f.since (λ t. t ≤ r.at_ts)

abbrev IsDescending : List AuditRow → Type 0
IsDescending [] = Unit
IsDescending (r ∷ rs) = All (λ s. s.at_ts ≤ r.at_ts) rs × IsDescending rs

-- The rows of the log are `rows`, `rest` and `others`: the filter asks for the first two, of which
-- the limit of `n` cuts `rest` off, and not for the others.
pub record IsNewest (f : QueryFilter) (n : ℕ) (db : Db) (rows : List AuditRow) : Type 0 where
  pub rest : List AuditRow
  pub others : List AuditRow
  pub all_rows : Perm ((rows ++ rest) ++ others) db.audit_log
  pub asked : All (IsAsked f) (rows ++ rest)
  pub unasked : All (λ r. ¬ IsAsked f r) others
  pub descending : IsDescending (rows ++ rest)
  pub full : (length rows ≡ n) ⊎ ((length rows ≤ n) × (rest ≡ []))

is_session_lem :
    (asked : Option Uuid) (s : Option Uuid)
    → (is_session asked s ≡ true) ↔ Asks asked (λ id. s ≡ some id)
is_session_lem none s = (λ h. tt, λ h. refl)
is_session_lem (some id) none = (λ h. cc, λ h. cc)
is_session_lem (some id) (some j) =
    (λ h. let e : j ≡ id = ground arith in ap some e, λ h. ground arith)

is_type_lem : (asked : Option Text) (t : Text) → (is_type asked t ≡ true) ↔ Asks asked (λ k. t ≡ k)
is_type_lem none t = (λ h. tt, λ h. refl)
is_type_lem (some k) t = text_eq_iff t k

is_since_lem :
    (asked : Option DateTime) (t : DateTime) → (is_since asked t ≡ true) ↔ Asks asked (λ k. k ≤ t)
is_since_lem none t = (λ h. tt, λ h. refl)
is_since_lem (some k) t = (λ h. ground arith, λ h. ground arith)

wanted-IsAsked : (f : QueryFilter) (r : AuditRow) → (wanted f r ≡ true) ↔ IsAsked f r
wanted-IsAsked f r =
    let by_session = is_session_lem f.session_id r.session_id in
    let by_type = is_type_lem f.resource_type r.resource_type in
    let by_time = is_since_lem f.since r.at_ts in
    (
      λ h. record {
        session = by_session.0 (ground arith);
        resource = by_type.0 (ground arith);
        time = by_time.0 (ground arith);
      },
      λ h.
          let s = by_session.1 h.session in
          let t = by_type.1 h.resource in let u = by_time.1 h.time in ground arith,
    )

IsOrdered-IsDescending : (rs : List AuditRow) → IsOrdered newer rs → IsDescending rs
IsOrdered-IsDescending [] o = tt
IsOrdered-IsDescending (r ∷ rs) o = (
  All-map (λ s. newer s r ≡ false) (λ s. s.at_ts ≤ r.at_ts) rs (λ s h. ground arith) o.0,
  IsOrdered-IsDescending rs o.1,
)

-- A query of the log changes nothing. Where its limit, 200 if none is given, is a number n that is
-- not negative, it gives the newest n of the rows that its filter asks for, the newest first, or all
-- of them; where it is negative, the database refuses it.
pub query-IsNewest :
    (f : QueryFilter) (now : DateTime) (db : Db)
    → ((n : ℕ) × (rows : List AuditRow) × (unwrap_or f.limit (pos 200) ≡ pos n)
        × (query f now db ≡ ok (rows, db))
        × IsNewest f n db rows)
      ⊎ ((n : ℕ) × (unwrap_or f.limit (pos 200) ≡ negsuc n) × (query f now db ≡ err database))
unfolding query newest_first
query-IsNewest f now db = elim (ℤ-cases (unwrap_or f.limit (pos 200))) [
  | inl (n, e) ↦
      let chosen = select (wanted f) db.audit_log in
      let found = newest_first chosen in
      let others = delete (wanted f) db.audit_log in
      let whole = take-append-drop n found in
      inl (
        n,
        take n found,
        e,
        rw e refl,
        record {
          rest = drop n found;
          others = others;
          all_rows = rw whole (
              Perm.trans (Perm.append_right others (order_by-perm newer chosen))
                (select-delete-perm (wanted f) db.audit_log));
          asked = rw whole (
              All-order_by newer (IsAsked f) chosen (
                All-map _ (IsAsked f) chosen (λ r h. (wanted-IsAsked f r).0 h)
                  (All-select (wanted f) db.audit_log)));
          unasked =
              All-map (λ r. (wanted f r ≡ false)) (λ r. ¬ IsAsked f r) others
                (λ r h k. let h' = (wanted-IsAsked f r).1 k in cc)
                (All-delete_unselected (wanted f) db.audit_log);
          descending = rw whole (
              IsOrdered-IsDescending found (
                order_by-IsOrdered newer (λ x y z p q. ground arith) (λ x y p. ground arith)
                  chosen));
          full = take-length n found;
        },
      )
  | inr (n, e) ↦ inr (n, e, rw e refl)
]
