-- ===== src/Tests/Uniform.antt =====
-- Runs of the operations on uniform resources.
use ovp_data_api.Base.{
  ◌≡◌, ◌≢◌, refl, arith, pos, text, Option, none, some, List, [], ◌∷◌, Result, ok, err, obj, end,
}
use ovp_data_api.Error.{precondition_failed}
use ovp_data_api.State.{recording}
use ovp_data_api.Ids.{ETag}
use ovp_data_api.Storage.Mem.{MemStore}
use ovp_data_api.App.{World}
use ovp_data_api.Db.{StoredRow}
use ovp_data_api.Db.Uniform.{
  PatchInput, UniformRow, CreateInput, BulkResult, stored_row, beats, rows_of, written, apply_patch,
  uniform, title_summary,
}
use ovp_data_api.Db.Uniform.Ops.{patch, bulk_insert}
use ovp_data_api.Db.Uniform.Bulk.{Again, bulk_insert-ok, row_ids, input_ids, table_ids}
use ovp_data_api.Db.Uniform.Tags.{patch-patch}
use ovp_data_api.Tests.World.{world}

abbrev tag : ETag
tag = record { as_str = text "t" }

abbrev beat : StoredRow
beat = record {
  id = 4;
  session_id = 7;
  client_id = text "b1";
  pseudo_id = none;
  start_ms = pos 0;
  end_ms = pos 10;
  body = text "title";
  summary = [];
  confidence = none;
  flags = obj end;
  original = none;
  etag = tag;
  author_service = text "svc";
  author_user_pseudo_id = none;
  created_at = 1;
  updated_at = 1;
}

abbrev before : World MemStore
before = record (world recording) { db = record (world recording).db { beats = beat ∷ [] } }

abbrev shorter : PatchInput
shorter = record {
  start_ms = none;
  end_ms = some (pos 5);
  text = none;
  title = none;
  summary = none;
  confidence = none;
  flags = none;
  author_user_pseudo_id = none;
}

abbrev after_patch : World MemStore
after_patch = (patch beats 4 (some tag) shorter before).1

abbrev answer : UniformRow
answer = record (uniform title_summary beat none none) {
  end_ms = pos 5;
  etag = before.etags 0;
  updated_at = 3_000_000;
}

patches : patch beats 4 (some tag) shorter before ≡ (ok answer, after_patch)
unfolding patch ovp_data_api.Db.Uniform.fetch ovp_data_api.Base.select
    ovp_data_api.Db.Uniform.row_from_pg ovp_data_api.Ids.etag_eq ovp_data_api.Base.text_eq
    ovp_data_api.Db.Uniform.update_stored apply_patch
patches = refl

patch-patch_example :
    patch beats 4 (some tag) shorter after_patch
    ≡ (err (precondition_failed (before.etags 0)), after_patch)
patch-patch_example =
    patch-patch beats 4 tag shorter shorter before after_patch answer patches (λ h. ground arith)

-- A beat that is there already, and one that is not.
abbrev again : CreateInput
again = record {
  client_id = text "b1";
  pseudo_id = none;
  start_ms = pos 0;
  end_ms = pos 10;
  text = none;
  title = some (text "title");
  summary = none;
  confidence = none;
  flags = none;
  original = none;
  author_user_pseudo_id = none;
}

abbrev other : CreateInput
other = record again { client_id = text "b2" }

abbrev after_bulk : World MemStore
after_bulk = (bulk_insert beats 7 (text "svc") (again ∷ other ∷ []) before).1

abbrev inserted : UniformRow
inserted =
    uniform title_summary
      (stored_row title_summary (before.uuids 1) 7 (text "svc") other (before.etags 0) 3_000_000)
      none none

abbrev result : BulkResult
result = record { inserted = inserted ∷ []; deduplicated_client_ids = text "b1" ∷ [] }

inserts : bulk_insert beats 7 (text "svc") (again ∷ other ∷ []) before ≡ (ok result, after_bulk)
unfolding bulk_insert ovp_data_api.Db.Uniform.validate_inputs
    ovp_data_api.Db.Uniform.existing_client_ids ovp_data_api.Base.select ovp_data_api.Base.text_eq
    ovp_data_api.Db.Uniform.insert_stored ovp_data_api.Db.session_exists
    ovp_data_api.Db.Uniform.row_from_pg
inserts = refl

bulk_insert-ok_example :
    Again 7 (again ∷ other ∷ []) (rows_of beats.table before.db) (text "b1" ∷ [])
    × (row_ids result.inserted ≡ input_ids (other ∷ []))
    × (table_ids beats.table after_bulk.db ≡ text "b1" ∷ text "b2" ∷ [])
unfolding ovp_data_api.Base.text_eq ovp_data_api.Base.delete
bulk_insert-ok_example =
    bulk_insert-ok beats 7 (text "svc") (again ∷ other ∷ []) before after_bulk result inserts
