-- ===== src/Router/Paths.antt =====
-- The tables of routes of src/routes/: the paths and methods with the handler of each, and the routers
-- that build_router merges them into. A path is the list of its segments.
pub mod Overlap
pub mod Guarded
use ovp_data_api.Base.{ℕ, Text, text, text_eq, Bool, true, false, ◌&&◌, ◌==◌, List, [], ◌∷◌, ◌++◌}
use ovp_data_api.Db.Uniform.{Table, session_segments, session_beats, session_scenes}

-- A segment of a path as it stands, or a parameter by its name.
pub data Segment : Type 0 where
  fixed param : Text → Segment

pub data Method : Type 0 where
  get post patch delete : Method

-- The handlers, by the names of the requests that they serve (src/routes/ws/mod.rs and metrics.rs
-- have one each that no request of Router stands for).
pub data Endpoint : Type 0 where
  for_authenticate for_heartbeat for_grant for_live for_ready for_metrics for_get_consent
        for_patch_consent for_delete_audio for_create_session for_list_sessions for_fetch_session
        for_patch_session for_resume_session for_delete_session for_session_summary for_upsert_user
        for_list_admin_users for_fetch_admin_user for_fetch_user for_patch_user for_post_display
        for_list_display for_add_participant for_list_participants for_add_participants
        for_fetch_participant for_participant_consent for_participant_license for_upload_chunk
        for_list_chunks for_download_chunk for_replace_metadata for_merge_metadata
        for_fetch_metadata for_list_mutes for_create_mute for_delete_mute for_wipe_audio
        for_query_audit for_create_token for_upgrade :
      Endpoint
  for_create_rows for_list_rows for_fetch_row for_patch_row for_delete_row : Table → Endpoint

pub record Route : Type 0 where
  pub path : List Segment
  pub method : Method
  pub endpoint : Endpoint

-- `.route(path, …)` with one of its methods
abbrev pub at_path : List Segment → Method → Endpoint → Route
at_path path method endpoint = record { path = path; method = method; endpoint = endpoint }

abbrev pub internal : List Segment → List Segment
internal rest = fixed (text "internal") ∷ rest

abbrev pub of_session : List Segment → List Segment
of_session rest = internal (fixed (text "sessions") ∷ param (text "id") ∷ rest)

unfoldable pub auth_routes : List Route
auth_routes =
    at_path (internal (fixed (text "auth") ∷ [])) post for_authenticate
    ∷ at_path (internal (fixed (text "heartbeat") ∷ [])) post for_heartbeat
    ∷ []

unfoldable pub admin_routes : List Route
admin_routes =
    at_path (internal (fixed (text "admin") ∷ fixed (text "grant") ∷ [])) post for_grant ∷ []

unfoldable pub health_routes : List Route
health_routes =
    at_path (fixed (text "health") ∷ fixed (text "live") ∷ []) get for_live
    ∷ at_path (fixed (text "health") ∷ fixed (text "ready") ∷ []) get for_ready
    ∷ []

unfoldable pub metrics_routes : List Route
metrics_routes = at_path (fixed (text "metrics") ∷ []) get for_metrics ∷ []

unfoldable pub public_consent_routes : List Route
public_consent_routes =
    at_path (fixed (text "public") ∷ fixed (text "consent") ∷ param (text "token") ∷ []) get
      for_get_consent
    ∷ at_path (fixed (text "public") ∷ fixed (text "consent") ∷ param (text "token") ∷ []) patch
        for_patch_consent
    ∷ at_path
        (fixed (text "public")
          ∷ fixed (text "consent")
          ∷ param (text "token")
          ∷ fixed (text "audio")
          ∷ [])
        delete for_delete_audio
    ∷ []

unfoldable pub sessions_routes : List Route
sessions_routes =
    at_path (internal (fixed (text "sessions") ∷ [])) post for_create_session
    ∷ at_path (internal (fixed (text "sessions") ∷ [])) get for_list_sessions
    ∷ at_path (of_session []) get for_fetch_session
    ∷ at_path (of_session []) patch for_patch_session
    ∷ at_path (of_session (fixed (text "resume") ∷ [])) post for_resume_session
    ∷ at_path (of_session (fixed (text "delete") ∷ [])) post for_delete_session
    ∷ at_path (of_session (fixed (text "summary") ∷ [])) get for_session_summary
    ∷ []

unfoldable pub users_routes : List Route
users_routes =
    at_path (internal (fixed (text "users") ∷ [])) post for_upsert_user
    ∷ at_path (internal (fixed (text "admin") ∷ fixed (text "users") ∷ [])) get for_list_admin_users
    ∷ at_path
        (internal (fixed (text "admin") ∷ fixed (text "users") ∷ param (text "pseudo_id") ∷ [])) get
        for_fetch_admin_user
    ∷ at_path (internal (fixed (text "users") ∷ param (text "pseudo_id") ∷ [])) get for_fetch_user
    ∷ at_path (internal (fixed (text "users") ∷ param (text "pseudo_id") ∷ [])) patch for_patch_user
    ∷ at_path
        (internal
          (fixed (text "users") ∷ param (text "pseudo_id") ∷ fixed (text "display_names") ∷ []))
        post for_post_display
    ∷ at_path
        (internal
          (fixed (text "users") ∷ param (text "pseudo_id") ∷ fixed (text "display_names") ∷ []))
        get for_list_display
    ∷ []

unfoldable pub participants_routes : List Route
participants_routes =
    at_path (of_session (fixed (text "participants") ∷ [])) post for_add_participant
    ∷ at_path (of_session (fixed (text "participants") ∷ [])) get for_list_participants
    ∷ at_path (of_session (fixed (text "participants") ∷ fixed (text "batch") ∷ [])) post
        for_add_participants
    ∷ at_path (internal (fixed (text "participants") ∷ param (text "id") ∷ [])) get
        for_fetch_participant
    ∷ at_path
        (internal (fixed (text "participants") ∷ param (text "id") ∷ fixed (text "consent") ∷ []))
        patch for_participant_consent
    ∷ at_path
        (internal (fixed (text "participants") ∷ param (text "id") ∷ fixed (text "license") ∷ []))
        patch for_participant_license
    ∷ []

unfoldable pub chunks_routes : List Route
chunks_routes =
    at_path
      (of_session (fixed (text "audio") ∷ param (text "pseudo_id") ∷ fixed (text "chunk") ∷ []))
      post for_upload_chunk
    ∷ at_path
        (of_session (fixed (text "audio") ∷ param (text "pseudo_id") ∷ fixed (text "chunks") ∷ []))
        get for_list_chunks
    ∷ at_path
        (of_session (
          fixed (text "audio")
          ∷ param (text "pseudo_id")
          ∷ fixed (text "chunk")
          ∷ param (text "seq")
          ∷ []))
        get for_download_chunk
    ∷ []

unfoldable pub metadata_routes : List Route
metadata_routes =
    at_path (of_session (fixed (text "metadata") ∷ [])) post for_replace_metadata
    ∷ at_path (of_session (fixed (text "metadata") ∷ [])) patch for_merge_metadata
    ∷ at_path (of_session (fixed (text "metadata") ∷ [])) get for_fetch_metadata
    ∷ []

unfoldable pub mute_routes : List Route
mute_routes =
    at_path
      (of_session (fixed (text "participants") ∷ param (text "pid") ∷ fixed (text "mute") ∷ [])) get
      for_list_mutes
    ∷ at_path
        (of_session (fixed (text "participants") ∷ param (text "pid") ∷ fixed (text "mute") ∷ []))
        post for_create_mute
    ∷ at_path
        (of_session (
          fixed (text "participants")
          ∷ param (text "pid")
          ∷ fixed (text "mute")
          ∷ param (text "range_id")
          ∷ []))
        delete for_delete_mute
    ∷ at_path
        (of_session (fixed (text "participants") ∷ param (text "pid") ∷ fixed (text "audio") ∷ []))
        delete for_wipe_audio
    ∷ []

unfoldable pub audit_routes : List Route
audit_routes = at_path (internal (fixed (text "audit") ∷ [])) get for_query_audit ∷ []

unfoldable pub internal_consent_routes : List Route
internal_consent_routes =
    at_path (internal (fixed (text "consent-tokens") ∷ [])) post for_create_token ∷ []

unfoldable pub ws_routes : List Route
ws_routes = at_path (internal (fixed (text "ws") ∷ [])) get for_upgrade ∷ []

-- resource_router!
unfoldable pub resource_router : Table → Text → Text → List Route
resource_router t coll single =
    at_path (of_session (fixed coll ∷ [])) post (for_create_rows t)
    ∷ at_path (of_session (fixed coll ∷ [])) get (for_list_rows t)
    ∷ at_path (internal (fixed single ∷ param (text "id") ∷ [])) get (for_fetch_row t)
    ∷ at_path (internal (fixed single ∷ param (text "id") ∷ [])) patch (for_patch_row t)
    ∷ at_path (internal (fixed single ∷ param (text "id") ∷ [])) delete (for_delete_row t)
    ∷ []

unfoldable pub uniform_routes : List Route
unfolding resource_router
uniform_routes =
    resource_router session_segments (text "segments") (text "segments")
    ++ resource_router session_beats (text "beats") (text "beats")
    ++ resource_router session_scenes (text "scenes") (text "scenes")

-- The router in front of the middleware, the one behind it, and the one of the socket.
unfoldable pub public_router : List Route
unfolding auth_routes admin_routes health_routes metrics_routes public_consent_routes
public_router =
    auth_routes ++ admin_routes ++ health_routes ++ metrics_routes ++ public_consent_routes

unfoldable pub protected_router : List Route
unfolding sessions_routes users_routes participants_routes chunks_routes metadata_routes
    uniform_routes mute_routes audit_routes internal_consent_routes
protected_router =
    sessions_routes ++ users_routes ++ participants_routes ++ chunks_routes ++ metadata_routes
    ++ uniform_routes ++ mute_routes ++ audit_routes ++ internal_consent_routes

unfoldable pub all_routes : List Route
unfolding public_router protected_router ws_routes
all_routes = public_router ++ protected_router ++ ws_routes
