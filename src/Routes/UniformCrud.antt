-- ===== src/Routes/UniformCrud.antt =====
-- src/routes/uniform_crud.rs: the handlers of segments, beats and scenes. A resource table names
-- its resource by `resource_type`, of which there are three.
use ovp_data_api.Base.{
  ℤ, Text, text, Uuid, DateTime, Option, none, some, unwrap_or, List, [], ◌∷◌, Json, str, obj, end,
  member,
}
use ovp_data_api.Error.{not_found}
use ovp_data_api.Ids.{PseudoId, ETag}
use ovp_data_api.Ids
use ovp_data_api.Events.{
  Event, ResourceRef, segment_created, segment_updated, segment_deleted, beat_created, beat_updated,
  beat_deleted, scene_created, scene_updated, scene_deleted,
}
use ovp_data_api.App.{AppState, Handler, pure, checked, exec, utc_now, send, audit, ◌>>=◌, ◌>>◌}
use ovp_data_api.Db.{Stmt}
use ovp_data_api.Db.AuditLog.{Entry}
use ovp_data_api.Db.Uniform.{
  ResourceTable, UniformRow, CreateInput, BulkResult, PatchInput, Table, session_segments,
  session_beats, session_scenes, raw,
}
use ovp_data_api.Db.Uniform.Ops
use ovp_data_api.Routes.Chunks.Headers.{HeaderMap, RequestLib}
use ovp_data_api.Routes.Guild.{guild_id_or}
use ovp_data_api.Routes.Tagged.{Tagged, trim_matches, quoted}

pub record BulkRequest : Type 0 where
  pub segments : Option (List CreateInput)
  pub beats : Option (List CreateInput)
  pub scenes : Option (List CreateInput)

-- BulkRequest::take; the match on `resource_type` is one on the table.
unfoldable pub take : BulkRequest → ResourceTable → List CreateInput
take req rt = elim rt.table [
  | session_segments ↦ unwrap_or req.segments []
  | session_beats ↦ unwrap_or req.beats []
  | session_scenes ↦ unwrap_or req.scenes []
]

pub record ListQuery : Type 0 where
  pub pseudo_id : Option Text
  pub since_ms : Option ℤ

abbrev trimmed : Option Text → Option ETag
trimmed none = none
trimmed (some s) = some (record { as_str = trim_matches b'"' s })

unfoldable pub if_match : RequestLib → HeaderMap → Option ETag
unfolding trim_matches
if_match lib h = elim (h (text "if-match")) [ none ↦ none | some v ↦ trimmed (lib.to_str v) ]

unfoldable pub row_response : UniformRow → Tagged UniformRow
unfolding quoted
row_response row = record { etag_header = quoted row.etag; body = row }

unfoldable pub guild_id_for_session : Uuid → Stmt ℤ
guild_id_for_session = guild_id_or not_found

-- The three matches that choose the event.
abbrev pub created_event : Table → DateTime → ResourceRef → Event
created_event session_segments = segment_created
created_event session_beats = beat_created
created_event session_scenes = scene_created

abbrev pub updated_event : Table → DateTime → ResourceRef → Event
updated_event session_segments = segment_updated
updated_event session_beats = beat_updated
updated_event session_scenes = scene_updated

abbrev pub deleted_event : Table → DateTime → ResourceRef → Event
deleted_event session_segments = segment_deleted
deleted_event session_beats = beat_deleted
deleted_event session_scenes = scene_deleted

abbrev pub resource : Uuid → ℤ → Uuid → ResourceRef
resource session_id guild_id id = record { session_id = session_id; guild_id = guild_id; id = id }

module _ {St : Type 0} (state : AppState St) (lib : RequestLib) where
  open state use {uuid_to_string}

  abbrev pub resource_entry :
      ResourceTable → Text → Option PseudoId → Uuid → Uuid → Text → Option Json → Entry
  resource_entry rt service pseudo session_id id action detail = record {
    actor_service = service;
    actor_pseudo = raw pseudo;
    session_id = some session_id;
    resource_type = rt.resource_type;
    resource_id = uuid_to_string id;
    action = action;
    detail = detail;
  }

  -- the loop over `result.inserted`
  unfoldable pub announce_rows :
      ResourceTable → Uuid → ℤ → Text → List UniformRow → Handler St (Unit {0})
  announce_rows rt session_id guild_id service [] = pure tt
  announce_rows rt session_id guild_id service (row ∷ rows) = do
    audit (
        resource_entry rt service row.author_user_pseudo_id session_id row.id (text "created")
          (some (obj (member (text "client_id") (str row.client_id) end))))
    now ← utc_now
    send (created_event rt.table now (resource session_id guild_id row.id))
    announce_rows rt session_id guild_id service rows

  unfoldable pub bulk_create :
      ResourceTable → Uuid → Text → List CreateInput → Handler St BulkResult
  unfolding guild_id_for_session announce_rows
  bulk_create rt session_id service inputs = do
    guild_id ← exec (guild_id_for_session session_id)
    result ← Ops.bulk_insert rt session_id service inputs
    announce_rows rt session_id guild_id service result.inserted
    pure result

  abbrev pub checked_pseudo : Option Text → Handler St (Option PseudoId)
  checked_pseudo none = pure none
  checked_pseudo (some r) = do pid ← checked (Ids.new r); pure (some pid)

  unfoldable pub list_rows : ResourceTable → Uuid → ListQuery → Handler St (List UniformRow)
  list_rows rt session_id q = do
    pid ← checked_pseudo q.pseudo_id
    Ops.list_by_session rt session_id pid q.since_ms

  unfoldable pub fetch_row : ResourceTable → Uuid → Handler St (Tagged UniformRow)
  unfolding row_response
  fetch_row rt id = do row ← Ops.get rt id; pure (row_response row)

  unfoldable pub patch_row :
      ResourceTable → Uuid → Text → HeaderMap → PatchInput → Handler St (Tagged UniformRow)
  unfolding if_match guild_id_for_session row_response
  patch_row rt id service headers body = do
    row ← Ops.patch rt id (if_match lib headers) body
    audit (
        resource_entry rt service row.author_user_pseudo_id row.session_id id (text "patched") none)
    guild_id ← exec (guild_id_for_session row.session_id)
    now ← utc_now
    send (updated_event rt.table now (resource row.session_id guild_id id))
    pure (row_response row)

  unfoldable pub delete_row : ResourceTable → Uuid → Text → Handler St (Unit {0})
  unfolding guild_id_for_session
  delete_row rt id service = do
    row ← Ops.delete rt id
    audit (resource_entry rt service none row.session_id id (text "deleted") none)
    guild_id ← exec (guild_id_for_session row.session_id)
    now ← utc_now
    send (deleted_event rt.table now (resource row.session_id guild_id id))
