-- ===== src/Routes/Metadata.antt =====
-- src/routes/metadata.rs: the metadata blob of a session.
use ovp_data_api.Base.{Text, text, Uuid, Option, none, some, Json, str, obj, end, member}
use ovp_data_api.Ids.{ETag}
use ovp_data_api.App.{AppState, Handler, pure, exec, audit, ◌>>=◌, ◌>>◌}
use ovp_data_api.Db.{MetadataBlob}
use ovp_data_api.Db.AuditLog.{Entry}
use ovp_data_api.Db.Metadata
use ovp_data_api.Routes.Chunks.Headers.{HeaderMap, RequestLib}
use ovp_data_api.Routes.Tagged.{Tagged, trim_matches, quoted}

abbrev trimmed : Option Text → Option ETag
trimmed none = none
trimmed (some s) = some (record { as_str = trim_matches b'"' s })

unfoldable pub if_match : RequestLib → HeaderMap → Option ETag
unfolding trim_matches
if_match lib h = elim (h (text "if-match")) [ none ↦ none | some v ↦ trimmed (lib.to_str v) ]

unfoldable pub metadata_response : MetadataBlob → Tagged MetadataBlob
unfolding quoted
metadata_response blob = record { etag_header = quoted blob.etag; body = blob }

module _ {St : Type 0} (state : AppState St) (lib : RequestLib) where
  open state use {uuid_to_string}

  abbrev pub metadata_entry : Text → Uuid → Text → ETag → Entry
  metadata_entry service id action etag = record {
    actor_service = service;
    actor_pseudo = none;
    session_id = some id;
    resource_type = text "metadata";
    resource_id = uuid_to_string id;
    action = action;
    detail = some (obj (member (text "etag") (str etag.as_str) end));
  }

  unfoldable pub fetch : Uuid → Handler St (Tagged MetadataBlob)
  unfolding metadata_response
  fetch id = do row ← exec (Metadata.get id); pure (metadata_response row)

  unfoldable pub replace : Text → Uuid → Json → Handler St (Tagged MetadataBlob)
  unfolding metadata_response
  replace service id body = do
    row ← Metadata.replace id body
    audit (metadata_entry service id (text "replaced") row.etag)
    pure (metadata_response row)

  unfoldable pub shallow_patch : Text → Uuid → HeaderMap → Json → Handler St (Tagged MetadataBlob)
  unfolding if_match metadata_response
  shallow_patch service id headers body = do
    row ← Metadata.shallow_merge id (if_match lib headers) body
    audit (metadata_entry service id (text "merged") row.etag)
    pure (metadata_response row)
