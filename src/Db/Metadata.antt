-- ===== src/Db/Metadata.antt =====
-- src/db/metadata.rs: the JSON blob of a session, with its tag.
pub mod Merge
use ovp_data_api.Base.{
  ℕ, Text, text_eq, Uuid, DateTime, Bool, true, false, not, ◌==◌, Option, none, some, List, [], ◌∷◌,
  ◌++◌, any, Result, ok, err, Json, Members, null, bool, num, str, arr, obj, end, member, select,
  update, first, if◌then◌else◌,
}
use ovp_data_api.Error.{AppError, database, not_found, bad_request, precondition_failed}
use ovp_data_api.Ids.{ETag, etag_eq}
use ovp_data_api.App.{Handler, pure, lift, exec, transaction, new_etag, ◌>>=◌, ◌>>◌}
use ovp_data_api.Db.Rows.{Db, MetadataBlob}
use ovp_data_api.Db.Statement.{Stmt, fetch_or, reading, session_exists}

abbrev pub of_session : Uuid → MetadataBlob → Bool
of_session session_id m = m.session_id == session_id

unfoldable pub get : Uuid → Stmt MetadataBlob
get session_id now db = reading db (fetch_or not_found (select (of_session session_id) db.metadata))

unfoldable pub get_opt : Uuid → Stmt (Option MetadataBlob)
get_opt session_id now db = ok (first (select (of_session session_id) db.metadata), db)

-- INSERT … ON CONFLICT (session_id) DO UPDATE …
unfoldable pub upsert : Uuid → Json → ETag → Stmt MetadataBlob
upsert session_id blob etag now db =
    let row : MetadataBlob = record {
      session_id = session_id;
      blob = blob;
      etag = etag;
      updated_at = now;
    } in
    if any (of_session session_id) db.metadata
    then ok (row, record db { metadata = update (of_session session_id) (λ _. row) db.metadata })
    else if session_exists session_id db
    then ok (row, record db { metadata = db.metadata ++ row ∷ [] })
    else err database

-- serde_json::Map::insert
unfoldable pub insert : Text → Json → Members → Members
insert k v end = member k v end
insert k v (member j u m) = if text_eq j k then member j v m else member j u (insert k v m)

-- the loop of `merge_shallow`
unfoldable pub insert_all : Members → Members → Members
unfolding insert
insert_all base end = base
insert_all base (member k v m) = insert_all (insert k v base) m

abbrev pub base_object : Json → Result AppError Members
base_object (obj m) = ok m
base_object null = ok end
base_object (bool b) = err bad_request
base_object (num n) = err bad_request
base_object (str s) = err bad_request
base_object (arr a) = err bad_request

abbrev pub patch_object : Json → Result AppError Members
patch_object (obj m) = ok m
patch_object null = err bad_request
patch_object (bool b) = err bad_request
patch_object (num n) = err bad_request
patch_object (str s) = err bad_request
patch_object (arr a) = err bad_request

unfoldable pub merge_shallow : Json → Json → Result AppError Json
unfolding insert_all
merge_shallow base patch = elim (base_object base) [
  | err e ↦ err e
  | ok b ↦ elim (patch_object patch) [ err e ↦ err e | ok p ↦ ok (obj (insert_all b p)) ]
]

abbrev pub require_etag : Option ETag → ETag → Result AppError (Unit {0})
require_etag none current = ok tt
require_etag (some expected) current =
    if not (etag_eq expected current) then err (precondition_failed current) else ok tt

module _ {St : Type 0} where
  unfoldable pub replace : Uuid → Json → Handler St MetadataBlob
  replace session_id blob = do etag ← new_etag; exec (upsert session_id blob etag)

  -- The blob that is there and its tag; without one an empty object under a fresh tag.
  abbrev pub current : Option MetadataBlob → Handler St (Json × ETag)
  current (some r) = pure (r.blob, r.etag)
  current none = do etag ← new_etag; pure (obj end, etag)

  unfoldable pub shallow_merge : Uuid → Option ETag → Json → Handler St MetadataBlob
  shallow_merge session_id expected patch = transaction (do
    existing ← exec (get_opt session_id)
    base ← current existing
    lift (require_etag expected base.1)
    merged ← lift (merge_shallow base.0 patch)
    etag ← new_etag
    exec (upsert session_id merged etag))
