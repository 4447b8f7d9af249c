-- ===== src/Db/Uniform/Ops.antt =====
-- src/db/uniform.rs: the operations, put together from the statements.
use ovp_data_api.Base.{
  ℤ, Text, text_eq, Uuid, not, Option, none, some, List, [], ◌∷◌, map, any, Result, ok, err,
  if◌then◌else◌,
}
use ovp_data_api.Error.{AppError, precondition_failed}
use ovp_data_api.Ids.{PseudoId, ETag, etag_eq}
use ovp_data_api.App.{
  Handler, pure, lift, exec, transaction, new_uuid, new_etag, utc_now, ◌>>=◌, ◌>>◌,
}
use ovp_data_api.Db.Uniform.{
  ResourceTable, UniformRow, CreateInput, BulkResult, PatchInput, validate_inputs, row_from_pg,
  stored_row, insert_stored, existing_client_ids, fetch, apply_patch, update_stored, delete_stored,
  select_by_session, collect_rows,
}

abbrev pub fresh_inputs : List Text → List CreateInput → List CreateInput
fresh_inputs existing [] = []
fresh_inputs existing (i ∷ is) =
    let rest = fresh_inputs existing is in
    if any (λ c. text_eq c i.client_id) existing then rest else i ∷ rest

abbrev pub require_etag : Option ETag → UniformRow → Result AppError (Unit {0})
require_etag none row = ok tt
require_etag (some expected) row =
    if not (etag_eq expected row.etag) then err (precondition_failed row.etag) else ok tt

module _ {St : Type 0} where
  unfoldable pub insert_row_in_tx :
      ResourceTable → Uuid → Text → CreateInput → ETag → Handler St UniformRow
  insert_row_in_tx rt session_id author_service inp etag = do
    id ← new_uuid
    now ← utc_now
    row ←
        exec
          (insert_stored rt.table (stored_row rt.shape id session_id author_service inp etag now))
    lift (row_from_pg rt row)

  -- the loop over `to_insert`
  unfoldable pub insert_rows :
      ResourceTable → Uuid → Text → List CreateInput → Handler St (List UniformRow)
  unfolding insert_row_in_tx
  insert_rows rt session_id author_service [] = pure []
  insert_rows rt session_id author_service (inp ∷ rest) = do
    etag ← new_etag
    row ← insert_row_in_tx rt session_id author_service inp etag
    rows ← insert_rows rt session_id author_service rest
    pure (row ∷ rows)

  unfoldable pub bulk_insert :
      ResourceTable → Uuid → Text → List CreateInput → Handler St BulkResult
  unfolding insert_rows
  bulk_insert rt session_id author_service [] =
      pure (record { inserted = []; deduplicated_client_ids = [] })
  bulk_insert rt session_id author_service (i ∷ is) = do
    lift (validate_inputs rt (i ∷ is))
    transaction (do
      existing ← exec (existing_client_ids rt session_id (map (λ j. j.client_id) (i ∷ is)))
      rows ← insert_rows rt session_id author_service (fresh_inputs existing (i ∷ is))
      pure (record { inserted = rows; deduplicated_client_ids = existing }))

  unfoldable pub get : ResourceTable → Uuid → Handler St UniformRow
  get rt id = do row ← exec (fetch rt id); lift (row_from_pg rt row)

  unfoldable pub list_by_session :
      ResourceTable → Uuid → Option PseudoId → Option ℤ → Handler St (List UniformRow)
  list_by_session rt session_id pseudo_id since_ms = do
    rows ← exec (select_by_session rt session_id pseudo_id since_ms)
    lift (collect_rows rt rows)

  unfoldable pub patch : ResourceTable → Uuid → Option ETag → PatchInput → Handler St UniformRow
  patch rt id expected_etag p = transaction (do
    stored ← exec (fetch rt id)
    existing ← lift (row_from_pg rt stored)
    lift (require_etag expected_etag existing)
    etag ← new_etag
    row ← exec (update_stored rt id (apply_patch rt p existing) etag p.author_user_pseudo_id)
    lift (row_from_pg rt row))

  -- The statement has committed before its row is read.
  unfoldable pub delete : ResourceTable → Uuid → Handler St UniformRow
  delete rt id = do row ← exec (delete_stored rt id); lift (row_from_pg rt row)
