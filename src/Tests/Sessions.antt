-- ===== src/Tests/Sessions.antt =====
-- Runs of the handlers of sessions.
use ovp_data_api.Base.{
  arith, ◌≡◌, ◌↔◌, refl, true, false, text, none, some, ok, err, ◌≤◌, Json, select, obj, member,
  bool, str, num, pos, end, unwrap_or,
}
use ovp_data_api.Storage.Mem.{MemStore}
use ovp_data_api.Error.{illegal_transition}
use ovp_data_api.State.{
  SessionStatus, status_eq, recording, uploaded, transcribed, abandoned, deleted, as_str,
  can_transition,
}
use ovp_data_api.App.{World}
use ovp_data_api.Db.{Session}
use ovp_data_api.Db.Sessions
use ovp_data_api.Db.Chunks
use ovp_data_api.Db.Uniform
use ovp_data_api.Db.MuteRanges
use ovp_data_api.Db.AuditLog
use ovp_data_api.Db.Sessions.{resumed, with_status}
use ovp_data_api.Db.Sessions.Rows.{row}
use ovp_data_api.Routes.Sessions.{
  PatchSession, ResumeBody, patch, resume, delete_cascade, age_seconds,
}
use ovp_data_api.Routes.Sessions.Patch.{patch-Moves, Moves}
use ovp_data_api.Routes.Sessions.Refusal.{IsIllegal, patch-refused}
use ovp_data_api.Routes.Sessions.Resume.{IsResumed, resume-IsResumed}
use ovp_data_api.Routes.Sessions.Delete.{delete_cascade-IsErased, IsErased, Spares}
use ovp_data_api.Tests.World.{state, world, session}

abbrev to_status : SessionStatus → PatchSession
to_status t = record { status = some t; ended_at = none; participant_count = none }

abbrev asked : ResumeBody
asked = record { resumed_by_service_name = text "bot"; reason = none }

abbrev after_patch : World MemStore
after_patch = (patch state (text "svc") 7 (to_status uploaded) (world recording)).1

patched :
    patch state (text "svc") 7 (to_status uploaded) (world recording)
    ≡ (ok (with_status uploaded 3_000_000 (session recording)), after_patch)
unfolding patch Sessions.get select can_transition Sessions.update_status AuditLog.append status_eq
    AuditLog.admits ovp_data_api.Base.holds_nul as_str
patched = refl

patch-Moves_example :
    (s : Session) × (row 7 (world recording).db ≡ ok s)
    × Moves (some uploaded) s.status uploaded
    × (row 7 after_patch.db ≡ ok (with_status uploaded 3_000_000 (session recording)))
unfolding with_status
patch-Moves_example =
    patch-Moves state (text "svc") 7 (to_status uploaded) (world recording) after_patch
      (with_status uploaded 3_000_000 (session recording)) patched

patch-refused_example :
    (((patch state (text "svc") 7 (to_status recording) (world transcribed)).0
        ≡ err (illegal_transition (text "transcribed") (text "recording")))
      ↔ IsIllegal
          (row 7 (world transcribed).db)
          (some recording)
          (text "transcribed")
          (text "recording"))
    × (((patch state (text "svc") 7 (to_status recording) (world transcribed)).0
          ≡ err (illegal_transition (text "transcribed") (text "recording")))
        ↔ (patch state (text "svc") 7 (to_status recording) (world transcribed) ≡ (
          err (illegal_transition (text "transcribed") (text "recording")),
          world transcribed,
        )))
patch-refused_example =
    patch-refused state (text "svc") 7 (to_status recording) (world transcribed)
      (text "transcribed") (text "recording")

-- The right side of the second equivalence, and so the refusal, holds.
refused :
    patch state (text "svc") 7 (to_status recording) (world transcribed)
    ≡ (err (illegal_transition (text "transcribed") (text "recording")), world transcribed)
unfolding patch Sessions.get select can_transition as_str
refused = refl

abbrev after_resume : World MemStore
after_resume = (resume state (text "svc") 7 asked (world abandoned)).1

brought_back :
    resume state (text "svc") 7 asked (world abandoned)
    ≡ (ok (resumed (session abandoned)), after_resume)
unfolding resume Sessions.get select status_eq Sessions.resume_from_abandoned AuditLog.append
    AuditLog.admits ovp_data_api.Base.holds_nul
brought_back = refl

resume-IsResumed_example :
    (s : Session) × (row 7 (world abandoned).db ≡ ok s)
    × (s.status ≡ abandoned)
    × (age_seconds state 3_000_000 (unwrap_or s.abandoned_at s.started_at) ≤ 600)
    × IsResumed s (resumed (session abandoned))
    × (row 7 after_resume.db ≡ ok (resumed (session abandoned)))
resume-IsResumed_example =
    resume-IsResumed state (text "svc") 7 asked (world abandoned) after_resume
      (resumed (session abandoned)) brought_back

abbrev after_delete : World MemStore
after_delete = (delete_cascade state (text "svc") 7 (world uploaded)).1

abbrev tombstone : Json
tombstone = obj (
    member (text "ok") (bool true) (
      member (text "tombstone_status") (str (text "deleted"))
        (member (text "s3_keys_deleted") (num (pos 1)) end)))

erased : delete_cascade state (text "svc") 7 (world uploaded) ≡ (ok tombstone, after_delete)
unfolding delete_cascade Sessions.get select Chunks.delete_for_session
    Uniform.delete_all_for_session MuteRanges.delete_for_session Sessions.update_status
    AuditLog.append as_str ovp_data_api.Routes.Sessions.delete_metadata
    ovp_data_api.Routes.Sessions.delete_participants AuditLog.admits ovp_data_api.Base.holds_nul
erased = refl

delete_cascade-IsErased_example :
    IsErased 7 after_delete.db
    × Spares 7 (world uploaded).db after_delete.db
    × (new : Session) × (row 7 after_delete.db ≡ ok new)
    × (new.status ≡ deleted)
delete_cascade-IsErased_example =
    delete_cascade-IsErased state (text "svc") 7 (world uploaded) after_delete tombstone erased
