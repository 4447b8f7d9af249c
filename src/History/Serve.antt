-- ===== src/History/Serve.antt =====
-- src/routes/mod.rs: every request keeps what the statements keep.
use ovp_data_api.Base.{Text, []}
use ovp_data_api.App.{AppState}
use ovp_data_api.Auth.{TokenLib}
use ovp_data_api.History.Evolve.{Evolution, Moves, after}
use ovp_data_api.History.Laws.{Laws}
use ovp_data_api.History.Chunks as C
use ovp_data_api.History.Mute as M
use ovp_data_api.History.Participants as P
use ovp_data_api.History.Sessions as S
use ovp_data_api.History.UniformCrud as R
use ovp_data_api.History.Users as U
use ovp_data_api.Router.{
  Protected, Public, Request, protected, public, protected_route, public_route, serve, table_of,
  live, ready, create_session, list_sessions, fetch_session, session_summary, patch_session,
  resume_session, delete_session, upsert_user, list_admin_users, fetch_admin_user, fetch_user,
  patch_user, post_display, list_display, add_participant, list_participants, add_participants,
  fetch_participant, participant_consent, participant_license, upload_chunk, list_chunks,
  download_chunk, replace_metadata, merge_metadata, fetch_metadata, create_rows, list_rows,
  fetch_row, patch_row, delete_row, list_mutes, create_mute, delete_mute, wipe_audio, query_audit,
  create_token, authenticate, heartbeat, grant, get_consent, patch_consent, delete_audio,
}
use ovp_data_api.Routes.Auth.{admin_bootstrap}
use ovp_data_api.Routes.Chunks.Headers.{HeaderMap, RequestLib}
use ovp_data_api.Routes.Health
use ovp_data_api.Routes.Consent.{consent_token}
use ovp_data_api.Routes.UniformCrud.{take}

module _ {St : Type 0} (state : AppState St) (lib : RequestLib) (tokens : TokenLib)
    (headers : HeaderMap) {E : Evolution} where
  pub protected-Moves :
      {name : Text}
      → Laws E name
      → (r : Protected) → Moves E (protected_route state lib tokens headers r name)
  unfolding protected_route
  protected-Moves laws (create_session i) b w h =
      after (S.create-Moves state laws i b w h) λ a w₁ h₁. record { later = h₁ }
  protected-Moves laws (list_sessions f) b w h =
      after (S.list-Moves state laws f b w h) λ a w₁ h₁. record { later = h₁ }
  protected-Moves laws (fetch_session id) b w h =
      after (S.fetch-Moves state laws id b w h) λ a w₁ h₁. record { later = h₁ }
  protected-Moves laws (session_summary id) b w h =
      after (S.summary-Moves state laws id b w h) λ a w₁ h₁. record { later = h₁ }
  protected-Moves laws (patch_session id p) b w h =
      after (S.patch-Moves state laws id p b w h) λ a w₁ h₁. record { later = h₁ }
  protected-Moves laws (resume_session id p) b w h =
      after (S.resume-Moves state laws id p b w h) λ a w₁ h₁. record { later = h₁ }
  protected-Moves laws (delete_session id) b w h =
      after (S.delete_cascade-Moves state laws id b w h) λ a w₁ h₁. record { later = h₁ }
  protected-Moves laws (upsert_user u) b w h =
      after (U.upsert_user-Moves laws u b w h) λ a w₁ h₁. record { later = h₁ }
  protected-Moves laws list_admin_users b w h =
      after (U.list_admin-Moves state b w h) λ a w₁ h₁. record { later = h₁ }
  protected-Moves laws (fetch_admin_user p) b w h =
      after (U.fetch_admin-Moves state p b w h) λ a w₁ h₁. record { later = h₁ }
  protected-Moves laws (fetch_user p) b w h =
      after (U.fetch_user-Moves state p b w h) λ a w₁ h₁. record { later = h₁ }
  protected-Moves laws (patch_user p q) b w h =
      after (U.patch_user-Moves laws p q b w h) λ a w₁ h₁. record { later = h₁ }
  protected-Moves laws (post_display p d) b w h =
      after (U.post_display-Moves laws p d b w h) λ a w₁ h₁. record { later = h₁ }
  protected-Moves laws (list_display p) b w h =
      after (U.list_display-Moves state p b w h) λ a w₁ h₁. record { later = h₁ }
  protected-Moves laws (add_participant id a) b w h =
      after (P.add_one-Moves laws state id a b w h) λ a w₁ h₁. record { later = h₁ }
  protected-Moves laws (list_participants id) b w h =
      after (P.list-Moves laws state id b w h) λ a w₁ h₁. record { later = h₁ }
  protected-Moves laws (add_participants id a) b w h =
      after (P.add_batch-Moves laws state id a b w h) λ a w₁ h₁. record { later = h₁ }
  protected-Moves laws (fetch_participant id) b w h =
      after (P.fetch-Moves laws state id b w h) λ a w₁ h₁. record { later = h₁ }
  protected-Moves laws (participant_consent id c) b w h =
      after (P.patch_consent-Moves laws state id c b w h) λ a w₁ h₁. record { later = h₁ }
  protected-Moves laws (participant_license id c) b w h =
      after (P.patch_license-Moves laws state id c b w h) λ a w₁ h₁. record { later = h₁ }
  protected-Moves laws (upload_chunk id p body) b w h =
      after (C.upload-Moves laws state lib id p headers body b w h) λ a w₁ h₁. record { later = h₁ }
  protected-Moves laws (list_chunks id p) b w h =
      after (C.list-Moves laws state lib id p b w h) λ a w₁ h₁. record { later = h₁ }
  protected-Moves laws (download_chunk id p seq) b w h =
      after (C.download-Moves laws state lib id p seq b w h) λ a w₁ h₁. record { later = h₁ }
  protected-Moves laws (replace_metadata id j) b w h =
      after (C.replace-Moves laws state lib id j b w h) λ a w₁ h₁. record { later = h₁ }
  protected-Moves laws (merge_metadata id j) b w h =
      after (C.shallow_patch-Moves laws state lib id headers j b w h)
        λ a w₁ h₁. record { later = h₁ }
  protected-Moves laws (fetch_metadata id) b w h =
      after (C.fetch-Moves laws state lib id b w h) λ a w₁ h₁. record { later = h₁ }
  protected-Moves laws (create_rows t id q) b w h =
      after (R.bulk_create-Moves laws state lib (table_of t) id (take q (table_of t)) b w h)
        λ a w₁ h₁. record { later = h₁ }
  protected-Moves laws (list_rows t id q) b w h =
      after (R.list_rows-Moves laws state lib (table_of t) id q b w h)
        λ a w₁ h₁. record { later = h₁ }
  protected-Moves laws (fetch_row t id) b w h =
      after (R.fetch_row-Moves laws state lib (table_of t) id b w h)
        λ a w₁ h₁. record { later = h₁ }
  protected-Moves laws (patch_row t id p) b w h =
      after (R.patch_row-Moves laws state lib (table_of t) id headers p b w h)
        λ a w₁ h₁. record { later = h₁ }
  protected-Moves laws (delete_row t id) b w h =
      after (R.delete_row-Moves laws state lib (table_of t) id b w h)
        λ a w₁ h₁. record { later = h₁ }
  protected-Moves laws (list_mutes id p) b w h =
      after (M.list_mutes-Moves laws state id p b w h) λ a w₁ h₁. record { later = h₁ }
  protected-Moves laws (create_mute id p m) b w h =
      after (M.create_mute-Moves laws state id p m b w h) λ a w₁ h₁. record { later = h₁ }
  protected-Moves laws (delete_mute id p i) b w h =
      after (M.delete_mute-Moves laws state id p i b w h) λ a w₁ h₁. record { later = h₁ }
  protected-Moves laws (wipe_audio id p) b w h =
      after (M.wipe-Moves laws state id p b w h) λ a w₁ h₁. record { later = h₁ }
  protected-Moves laws (query_audit f) b w h =
      after (U.query-Moves state f b w h) λ a w₁ h₁. record { later = h₁ }
  protected-Moves laws (create_token i) b w h =
      after (M.create_token-Moves laws state i b w h) λ a w₁ h₁. record { later = h₁ }

  public-Moves :
      ((actor : Text) → Laws E actor)
      → (r : Public) → Moves E (public_route state lib tokens headers r)
  unfolding public_route Health.ready
  public-Moves laws (authenticate r) b w h =
      after (U.authenticate-Moves (laws []) state lib tokens r b w h)
        λ a w₁ h₁. record { later = h₁ }
  public-Moves laws heartbeat b w h =
      after (U.heartbeat-Moves (laws []) state lib tokens headers b w h)
        λ a w₁ h₁. record { later = h₁ }
  public-Moves laws (grant r) b w h =
      after (U.grant-Moves (laws admin_bootstrap) state r b w h) λ a w₁ h₁. record { later = h₁ }
  public-Moves laws (get_consent t) b w h =
      after (M.get_consent-Moves (laws []) state t b w h) λ a w₁ h₁. record { later = h₁ }
  public-Moves laws (patch_consent t i) b w h =
      after (M.patch_consent-Moves (laws consent_token) state t i b w h)
        λ a w₁ h₁. record { later = h₁ }
  public-Moves laws (delete_audio t) b w h =
      after (M.delete_audio-Moves (laws consent_token) state t b w h)
        λ a w₁ h₁. record { later = h₁ }
  public-Moves laws live b w h = record { later = h }
  public-Moves laws (ready db_ok) b w h = record { later = h }

  pub serve-Moves :
      ((actor : Text) → Laws E actor) → (r : Request) → Moves E (serve state lib tokens headers r)
  unfolding serve
  serve-Moves laws (protected r) b w h =
      after (U.service_name-Moves state lib tokens headers b w h)
        λ name w₁ h₁. protected-Moves (laws name) r b w₁ h₁
  serve-Moves laws (public r) b w h = public-Moves laws r b w h
