-- ===== src/Router.antt =====
-- src/routes/mod.rs: the requests of the service, the handler of each, and which of them go through
-- the middleware. Extractors (paths, queries and JSON bodies) have run: a request carries what they
-- made of it. The socket has a module of its own (Ws/Upgrade), and so have the metrics.
pub mod Paths
use ovp_data_api.Base.{ℕ, Text, Uuid, List, Json, Bool}
use ovp_data_api.App.{AppState, Handler, pure, ◌>>=◌}
use ovp_data_api.Auth.{TokenLib, require_service_auth}
use ovp_data_api.Db.{
  Session, Participant, ChunkRow, MuteRange, User, DisplayName, MetadataBlob, AuditRow,
}
use ovp_data_api.Db.AuditLog.{QueryFilter}
use ovp_data_api.Db.ConsentTokens.{ConsentTokenWithContext}
use ovp_data_api.Db.DisplayNames.{UpsertDisplayName}
use ovp_data_api.Db.MuteRanges.{CreateMuteRange}
use ovp_data_api.Db.Participants.{AddParticipant, UpdateConsent, UpdateLicense}
use ovp_data_api.Db.Sessions.{CreateSession, ListFilter, SessionSummary}
use ovp_data_api.Db.Uniform.{
  ResourceTable, Table, session_segments, session_beats, session_scenes, segments, beats, scenes,
  UniformRow, BulkResult, PatchInput,
}
use ovp_data_api.Db.Users.{UpsertUser, AdminUserListItem}
use ovp_data_api.Routes.Auth
use ovp_data_api.Routes.Chunks
use ovp_data_api.Routes.Chunks.{UploadResponse}
use ovp_data_api.Routes.Chunks.Headers.{HeaderMap, RequestLib}
use ovp_data_api.Routes.Consent
use ovp_data_api.Routes.Health
use ovp_data_api.Routes.Metadata
use ovp_data_api.Routes.Mute
use ovp_data_api.Routes.Participants
use ovp_data_api.Routes.Sessions
use ovp_data_api.Routes.Sessions.{PatchSession, ResumeBody}
use ovp_data_api.Routes.Tagged.{Tagged}
use ovp_data_api.Routes.UniformCrud
use ovp_data_api.Routes.UniformCrud.{BulkRequest, ListQuery}
use ovp_data_api.Routes.Users
use ovp_data_api.Routes.Users.{UserResponse, UserDetail, PatchUserRequest}

-- The routes behind the middleware.
pub data Protected : Type 0 where
  create_session : CreateSession → Protected
  list_sessions : ListFilter → Protected
  fetch_session : Uuid → Protected
  session_summary : Uuid → Protected
  patch_session : Uuid → PatchSession → Protected
  resume_session : Uuid → ResumeBody → Protected
  delete_session : Uuid → Protected
  upsert_user : UpsertUser → Protected
  list_admin_users : Protected
  fetch_admin_user : Text → Protected
  fetch_user : Text → Protected
  patch_user : Text → PatchUserRequest → Protected
  post_display : Text → UpsertDisplayName → Protected
  list_display : Text → Protected
  add_participant : Uuid → AddParticipant → Protected
  list_participants : Uuid → Protected
  add_participants : Uuid → Participants.Batch → Protected
  fetch_participant : Uuid → Protected
  participant_consent : Uuid → UpdateConsent → Protected
  participant_license : Uuid → UpdateLicense → Protected
  upload_chunk : Uuid → Text → List ℕ → Protected
  list_chunks : Uuid → Text → Protected
  download_chunk : Uuid → Text → ℕ → Protected
  replace_metadata : Uuid → Json → Protected
  merge_metadata : Uuid → Json → Protected
  fetch_metadata : Uuid → Protected
  create_rows : Table → Uuid → BulkRequest → Protected
  list_rows : Table → Uuid → ListQuery → Protected
  fetch_row : Table → Uuid → Protected
  patch_row : Table → Uuid → PatchInput → Protected
  delete_row : Table → Uuid → Protected
  list_mutes : Uuid → Text → Protected
  create_mute : Uuid → Text → CreateMuteRange → Protected
  delete_mute : Uuid → Text → Uuid → Protected
  wipe_audio : Uuid → Text → Protected
  query_audit : QueryFilter → Protected
  create_token : Consent.CreateTokenRequest → Protected

-- Those in front of it. `ready` comes with whether the database answers.
pub data Public : Type 0 where
  authenticate : Auth.AuthRequest → Public
  heartbeat : Public
  grant : Auth.GrantRequest → Public
  get_consent : Uuid → Public
  patch_consent : Uuid → Consent.PatchConsent → Public
  delete_audio : Uuid → Public
  live : Public
  ready : Bool → Public

pub data Request : Type 0 where
  protected : Protected → Request
  public : Public → Request

-- The body of a response.
pub data Reply : Type 0 where
  session : Session → Reply
  sessions : List Session → Reply
  summary : SessionSummary → Reply
  json : Json → Reply
  user : User → Reply
  user_response : UserResponse → Reply
  user_detail : UserDetail → Reply
  admin_users : List AdminUserListItem → Reply
  display_name : DisplayName → Reply
  display_names : List DisplayName → Reply
  participant : Participant → Reply
  participants : List Participant → Reply
  uploaded : UploadResponse → Reply
  chunks : List ChunkRow → Reply
  pcm : List ℕ → Reply
  metadata : Tagged MetadataBlob → Reply
  row : Tagged UniformRow → Reply
  rows : List UniformRow → Reply
  bulk : BulkResult → Reply
  mute : MuteRange → Reply
  mutes : List MuteRange → Reply
  audit_rows : List AuditRow → Reply
  consent : ConsentTokenWithContext → Reply
  consent_token : Consent.CreateTokenResponse → Reply
  session_token : Auth.AuthResponse → Reply
  no_content : Reply

-- The constant with which the router of each resource is built.
unfoldable pub table_of : Table → ResourceTable
table_of session_segments = segments
table_of session_beats = beats
table_of session_scenes = scenes

infix 6 ◌into◌
abbrev ◌into◌ : {St A : Type 0} → Handler St A → (A → Reply) → Handler St Reply
h into f = do a ← h; pure (f a)

module _ {St : Type 0} (state : AppState St) (lib : RequestLib) (tokens : TokenLib) where
  -- `name` is the ServiceSession that the middleware inserts.
  unfoldable pub protected_route : HeaderMap → Protected → Text → Handler St Reply
  protected_route h (create_session input) name = Sessions.create state name input into session
  protected_route h (list_sessions filter) name = Sessions.list state filter into sessions
  protected_route h (fetch_session id) name = Sessions.fetch state id into session
  protected_route h (session_summary id) name = Sessions.summary state id into summary
  protected_route h (patch_session id body) name = Sessions.patch state name id body into session
  protected_route h (resume_session id body) name = Sessions.resume state name id body into session
  protected_route h (delete_session id) name = Sessions.delete_cascade state name id into json
  protected_route h (upsert_user input) name = Users.upsert_user name input into user
  protected_route h list_admin_users name = Users.list_admin_users into admin_users
  protected_route h (fetch_admin_user pid) name = Users.fetch_admin_user_detail pid into user_detail
  protected_route h (fetch_user pid) name = Users.fetch_user pid into user_response
  protected_route h (patch_user pid req) name = Users.patch_user name pid req into user
  protected_route h (post_display pid input) name =
      Users.post_display name pid input into display_name
  protected_route h (list_display pid) name = Users.list_display pid into display_names
  protected_route h (add_participant id input) name =
      Participants.add_one state name id input into participant
  protected_route h (list_participants id) name = Participants.list state id into participants
  protected_route h (add_participants id input) name =
      Participants.add_batch state name id input into participants
  protected_route h (fetch_participant id) name = Participants.fetch state id into participant
  protected_route h (participant_consent id input) name =
      Participants.patch_consent state name id input into participant
  protected_route h (participant_license id input) name =
      Participants.patch_license state name id input into participant
  protected_route h (upload_chunk id pid body) name =
      Chunks.upload state lib name id pid h body into uploaded
  protected_route h (list_chunks id pid) name = Chunks.list state lib id pid into chunks
  protected_route h (download_chunk id pid seq) name = Chunks.download state lib id pid seq into pcm
  protected_route h (replace_metadata id body) name =
      Metadata.replace state lib name id body into metadata
  protected_route h (merge_metadata id body) name =
      Metadata.shallow_patch state lib name id h body into metadata
  protected_route h (fetch_metadata id) name = Metadata.fetch state lib id into metadata
  protected_route h (create_rows t id req) name =
      UniformCrud.bulk_create state lib (table_of t) id name (UniformCrud.take req (table_of t))
      into bulk
  protected_route h (list_rows t id q) name =
      UniformCrud.list_rows state lib (table_of t) id q into rows
  protected_route h (fetch_row t id) name = UniformCrud.fetch_row state lib (table_of t) id into row
  protected_route h (patch_row t id body) name =
      UniformCrud.patch_row state lib (table_of t) id name h body into row
  protected_route h (delete_row t id) name =
      UniformCrud.delete_row state lib (table_of t) id name into λ _. no_content
  protected_route h (list_mutes id pid) name = Mute.list_mutes state id pid into mutes
  protected_route h (create_mute id pid input) name =
      Mute.create_mute state name id pid input into mute
  protected_route h (delete_mute id pid range_id) name =
      Mute.delete_mute state name id pid range_id into λ _. no_content
  protected_route h (wipe_audio id pid) name =
      Mute.wipe_participant_audio state name id pid into json
  protected_route h (query_audit filter) name = Auth.query state filter into audit_rows
  protected_route h (create_token input) name =
      Consent.create_token state name input into consent_token

  unfoldable pub public_route : HeaderMap → Public → Handler St Reply
  public_route h (authenticate req) = Auth.authenticate state lib tokens req into session_token
  public_route h heartbeat = Auth.heartbeat state lib tokens h into json
  public_route h (grant req) = Auth.grant state req into json
  public_route h (get_consent token) = Consent.get_consent state token into consent
  public_route h (patch_consent token input) =
      Consent.patch_consent state token input into participant
  public_route h (delete_audio token) = Consent.delete_audio state token into λ _. no_content
  public_route h live = pure (json Health.live)
  public_route h (ready db_ok) = Health.ready state db_ok into json

  unfoldable pub serve : HeaderMap → Request → Handler St Reply
  unfolding protected_route public_route require_service_auth
  serve h (protected r) = require_service_auth state lib tokens h (λ name. protected_route h r name)
  serve h (public r) = public_route h r
