-- ===== src/Db/Uniform/Bulk.antt =====
-- src/db/uniform.rs: what a bulk insertion inserts.
use ovp_data_api.Base.{
  ◌⊎◌, ◌↔◌, ◌==◌, ◌&&◌, select, true, Text, Uuid, DateTime, Bool-cases, any, text_eq, text_eq_iff,
  Bool, delete, inl, inr, List, [], ◌∷◌, ◌++◌, map, ◌+◌, Result, ok, err, ◌≡◌, refl, sym, ap, ◌∙◌,
  arith,
}
use mathlib.Core.List.{append_assoc, append-nil}
use ovp_data_api.Error.{AppError}
use ovp_data_api.Ids.{ETag}
use ovp_data_api.App.Inversion.{>>=-ok, exec-ok, transaction-ok}
use mathlib.Core.Path.{subst}
use ovp_data_api.App.{World, Handler, lift, exec, pure, ◌>>=◌}
use ovp_data_api.Db.{Db, StoredRow}
use ovp_data_api.Db.Uniform.{
  ResourceTable, Table, UniformRow, CreateInput, BulkResult, rows_of, with_rows, stored_row,
  insert_stored, admits, row_from_pg, read_pseudo, pseudo_column, existing_client_ids,
  validate_inputs,
}
use ovp_data_api.Db.Uniform.Tags.{rows-with_rows}
use ovp_data_api.Db.Uniform.Ops.{insert_row_in_tx, insert_rows, bulk_insert, fresh_inputs}

abbrev pub input_ids : List CreateInput → List Text
input_ids is = map (λ i. i.client_id) is

abbrev pub row_ids : List UniformRow → List Text
row_ids rs = map (λ r. r.client_id) rs

-- One of the inputs has the client id.
abbrev pub Given : Text → List CreateInput → Type 0
Given c [] = ⊥
Given c (i ∷ is) = (c ≡ i.client_id) ⊎ Given c is

-- The client ids that a session has in a table and that a list of inputs gives again, in the order
-- of the table.
pub data Again (id : Uuid) (is : List CreateInput) : List StoredRow → List Text → Type 0 where
  again_none : Again id is [] []
  again :
      (r : StoredRow) (rs : List StoredRow) (cs : List Text)
      → r.session_id ≡ id
      → Given r.client_id is
      → Again id is rs cs
      → Again id is (r ∷ rs) (r.client_id ∷ cs)
  other :
      (r : StoredRow) (rs : List StoredRow) (cs : List Text)
      → ¬ ((r.session_id ≡ id) × Given r.client_id is)
      → Again id is rs cs
      → Again id is (r ∷ rs) cs

abbrev pub table_ids : Table → Db → List Text
table_ids t db = map (λ r. r.client_id) (rows_of t db)

given_lem :
    (c : Text) (is : List CreateInput) → (any (λ d. text_eq c d) (input_ids is) ≡ true) ↔ Given c is
given_lem c [] = (λ h. cc, λ h. elim h [ ])
given_lem c (i ∷ is) = elim (Bool-cases (text_eq c i.client_id)) [
  | inl e ↦ (λ h. inl ((text_eq_iff c i.client_id).0 e), λ h. rw e refl)
  | inr e ↦ (
    λ h. inr ((given_lem c is).0 (ground arith)),
    λ h. elim h [
      | inl same ↦ let yes_same = (text_eq_iff c i.client_id).1 same in cc
      | inr later ↦ rw e ((given_lem c is).1 later)
    ],
  )
]

-- The rows whose client ids the look-up before an insertion gives.
abbrev met : Uuid → List CreateInput → StoredRow → Bool
met id is r = r.session_id == id && any (λ c. text_eq r.client_id c) (input_ids is)

select-Again :
    (id : Uuid) (is : List CreateInput) (rs : List StoredRow)
    → Again id is rs (map (λ r. r.client_id) (select (met id is) rs))
unfolding select
select-Again id is [] = again_none
select-Again id is (r ∷ rs) = elim (Bool-cases (met id is r)) [
  | inl e ↦ rw e (
      again r rs _ (ground arith) ((given_lem r.client_id is).0 (ground arith))
        (select-Again id is rs))
  | inr e ↦ rw e (
      other r rs _ (λ h. let k = (given_lem r.client_id is).1 h.1 in ground arith)
        (select-Again id is rs))
]

nothing-Again : (id : Uuid) (rs : List StoredRow) → Again id [] rs []
nothing-Again id [] = again_none
nothing-Again id (r ∷ rs) = other r rs [] (λ h. h.1) (nothing-Again id rs)

-- The inputs whose client id is not one of `known`.
abbrev pub unknown : List Text → List CreateInput → List CreateInput
unknown known is = delete (λ i. any (λ c. text_eq c i.client_id) known) is

map-++ : {A B : Type 0} (f : A → B) (xs ys : List A) → map f (xs ++ ys) ≡ map f xs ++ map f ys
map-++ f [] ys = refl
map-++ f (x ∷ xs) ys = rw (map-++ f xs ys) refl

answered :
    {A : Type 0} (a b : A) (x y : Db)
    → Path (Result AppError (A × Db)) (ok (a, x)) (ok (b, y))
    → (b ≡ a) × (y ≡ x)
answered a b x y h = (ground arith, ground arith)

insert_stored-ids :
    (t : Table) (r s : StoredRow) (now : DateTime) (db db' : Db)
    → insert_stored t r now db ≡ ok (s, db')
    → (s ≡ r) × (table_ids t db' ≡ table_ids t db ++ r.client_id ∷ [])
unfolding insert_stored
insert_stored-ids t r s now db db' h = elim (Bool-cases (admits t r db)) [
  | inl e ↦
      let after = with_rows t (rows_of t db ++ r ∷ []) db in
      let same : insert_stored t r now db ≡ ok (r, after) = rw e refl in
      let (is, left) = answered r s after db' (sym same ∙ h) in
      (
        is,
        ap (table_ids t) left
            ∙ (ap (map (λ x. x.client_id)) (rows-with_rows t (rows_of t db ++ r ∷ []) db)
                ∙ map-++ (λ x. x.client_id) (rows_of t db) (r ∷ [])),
      )
  | inr e ↦ ground arith
]

row_from_pg-client_id :
    (rt : ResourceTable) (s : StoredRow) (r : UniformRow)
    → row_from_pg rt s ≡ ok r
    → r.client_id ≡ s.client_id
unfolding row_from_pg
row_from_pg-client_id rt s r = elim (read_pseudo (pseudo_column rt.shape s)) [
  | err x ↦ λ e. ground arith
  | ok q ↦ elim (read_pseudo s.author_user_pseudo_id) [
    | err x ↦ λ e. ground arith
    | ok a ↦ λ e. ground arith
  ]
]

returned :
    {St A : Type 0} (a b : A) (w w' : World St)
    → Path (Result AppError A × World St) (ok a, w) (ok b, w')
    → (a ≡ b) × (w ≡ w')
returned {St} {A} a b w w' h = (ground arith, ap (λ (x : Result AppError A × World St). x.1) h)

module _ {St : Type 0} (rt : ResourceTable) (session_id : Uuid) (service : Text) where
  insert_row-ids :
      (i : CreateInput) (etag : ETag) (w w' : World St) (r : UniformRow)
      → insert_row_in_tx rt session_id service i etag w ≡ (ok r, w')
      → (r.client_id ≡ i.client_id)
        × (table_ids rt.table w'.db ≡ table_ids rt.table w.db ++ i.client_id ∷ [])
  unfolding insert_row_in_tx
  insert_row-ids i etag w w' r h =
      let w₀ : World St = record w { drawn = w.drawn + 1 } in
      let row = stored_row rt.shape (w.uuids w.drawn) session_id service i etag w.now in
      let (s, w₁, done, h₁) = >>=-ok (exec (insert_stored rt.table row) w₀) _ r w' h in
      let (db, put, left) = exec-ok (insert_stored rt.table row w₀.now w₀.db) w₀ s w₁ done in
      let (same, ids) = insert_stored-ids rt.table row s w₀.now w₀.db db put in
      let read : row_from_pg rt s ≡ ok r =
        ap (λ (x : Result AppError UniformRow × World St). x.0) h₁ in
      let last : w₁ ≡ w' = ap (λ (x : Result AppError UniformRow × World St). x.1) h₁ in
      (
        row_from_pg-client_id rt s r read ∙ ap (λ (x : StoredRow). x.client_id) same,
        ap (λ (x : World St). table_ids rt.table x.db) (sym last ∙ left) ∙ ids,
      )

  insert_rows-ids :
      (is : List CreateInput) (w w' : World St) (rs : List UniformRow)
      → insert_rows rt session_id service is w ≡ (ok rs, w')
      → (row_ids rs ≡ input_ids is)
        × (table_ids rt.table w'.db ≡ table_ids rt.table w.db ++ input_ids is)
  unfolding insert_rows
  insert_rows-ids [] w w' rs h =
      let (listed, last) = returned [] rs w w' h in
      (
        ap row_ids (sym listed),
        ap (λ (x : World St). table_ids rt.table x.db) (sym last)
            ∙ sym (append-nil (table_ids rt.table w.db)),
      )
  insert_rows-ids (i ∷ is) w w' rs h =
      let etag = w.etags w.drawn in
      let w₀ : World St = record w { drawn = w.drawn + 1 } in
      let (r, w₁, one, h₁) = >>=-ok (insert_row_in_tx rt session_id service i etag w₀) _ rs w' h in
      let (rest, w₂, more, h₂) = >>=-ok (insert_rows rt session_id service is w₁) _ rs w' h₁ in
      let (is_r, ids_r) = insert_row-ids i etag w₀ w₁ r one in
      let (is_rest, ids_rest) = insert_rows-ids is w₁ w₂ rest more in
      let (listed, last) = returned (r ∷ rest) rs w₂ w' h₂ in
      (
        ap row_ids (sym listed)
            ∙ (ap (λ x. x ∷ row_ids rest) is_r ∙ ap (λ xs. i.client_id ∷ xs) is_rest),
        ap (λ (x : World St). table_ids rt.table x.db) (sym last)
            ∙ (ids_rest
                ∙ (ap (λ xs. xs ++ input_ids is) ids_r
                    ∙ append_assoc (table_ids rt.table w.db) (i.client_id ∷ []) (input_ids is))),
      )

  -- The transaction of `bulk_insert`.
  abbrev insert_fresh : List CreateInput → Handler St BulkResult
  insert_fresh is = do
    existing ← exec (existing_client_ids rt session_id (input_ids is))
    rows ← insert_rows rt session_id service (fresh_inputs existing is)
    pure (record { inserted = rows; deduplicated_client_ids = existing })

  abbrev Inserted : List CreateInput → World St → World St → BulkResult → Type 0
  Inserted is w w' res =
      Again session_id is (rows_of rt.table w.db) res.deduplicated_client_ids
      × (row_ids res.inserted ≡ input_ids (unknown res.deduplicated_client_ids is))
      × (table_ids rt.table w'.db
          ≡ table_ids rt.table w.db ++ input_ids (unknown res.deduplicated_client_ids is))

  reads-ids :
      (ids old : List Text) (w w' : World St)
      → exec (existing_client_ids rt session_id ids) w ≡ (ok old, w')
      → w ≡ w'
  unfolding existing_client_ids
  reads-ids ids old w w' h = ap (λ (x : Result AppError (List Text) × World St). x.1) h

  reads-Again :
      (is : List CreateInput) (old : List Text) (w w' : World St)
      → exec (existing_client_ids rt session_id (input_ids is)) w ≡ (ok old, w')
      → Again session_id is (rows_of rt.table w.db) old
  unfolding existing_client_ids
  reads-Again is old w w' h =
      subst (Again session_id is (rows_of rt.table w.db)) (returned _ old w w' h).0
        (select-Again session_id is (rows_of rt.table w.db))

  insert_fresh-Inserted :
      (is : List CreateInput) (w w' : World St) (res : BulkResult)
      → insert_fresh is w ≡ (ok res, w')
      → Inserted is w w' res
  unfolding delete
  insert_fresh-Inserted is w w' res h =
      let (old, w₁, read, h₁) =
        >>=-ok (exec (existing_client_ids rt session_id (input_ids is)) w) _ res w' h in
      let same = reads-ids (input_ids is) old w w₁ read in
      let (rs, w₂, put, h₂) =
        >>=-ok (insert_rows rt session_id service (fresh_inputs old is) w₁) _ res w' h₁ in
      let (listed, ids) = insert_rows-ids (fresh_inputs old is) w₁ w₂ rs put in
      let (made, last) =
        returned (record { inserted = rs; deduplicated_client_ids = old }) res w₂ w' h₂ in
      subst (Inserted is w w') made (
        reads-Again is old w w₁ read,
        listed,
        ap (λ (x : World St). table_ids rt.table x.db) (sym last)
            ∙ (ids
                ∙ ap (λ (x : World St). table_ids rt.table x.db ++ input_ids (fresh_inputs old is))
                    (sym same)),
      )

  -- A bulk insertion that succeeds names as deduplicated the client ids that the session has in the
  -- table already and that an input gives again; it inserts the inputs whose client id is not among
  -- these, in their order, and the table grows by rows of exactly these client ids, after those that
  -- it had.
  pub bulk_insert-ok :
      (is : List CreateInput) (w w' : World St) (res : BulkResult)
      → bulk_insert rt session_id service is w ≡ (ok res, w')
      → Again session_id is (rows_of rt.table w.db) res.deduplicated_client_ids
        × (row_ids res.inserted ≡ input_ids (unknown res.deduplicated_client_ids is))
        × (table_ids rt.table w'.db
            ≡ table_ids rt.table w.db ++ input_ids (unknown res.deduplicated_client_ids is))
  unfolding bulk_insert delete
  bulk_insert-ok [] w w' res h =
      let none : BulkResult = record { inserted = []; deduplicated_client_ids = [] } in
      let (made, last) = returned none res w w' h in
      subst (Inserted [] w w') made (
        nothing-Again session_id (rows_of rt.table w.db),
        refl,
        ap (λ (x : World St). table_ids rt.table x.db) (sym last)
            ∙ sym (append-nil (table_ids rt.table w.db)),
      )
  bulk_insert-ok (i ∷ is) w w' res h =
      let (_, w₁, valid, h₁) = >>=-ok (lift (validate_inputs rt (i ∷ is)) w) _ res w' h in
      let same : w ≡ w₁ = ap (λ (x : Result AppError (Unit {0}) × World St). x.1) valid in
      let h₂ = transaction-ok w₁.db (insert_fresh (i ∷ is) w₁) res w' h₁ in
      subst (λ x. Inserted (i ∷ is) x w' res) (sym same)
        (insert_fresh-Inserted (i ∷ is) w₁ w' res h₂)
