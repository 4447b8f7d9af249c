-- ===== src/Routes/Sessions/Resume.antt =====
-- src/routes/sessions.rs: which sessions `resume` brings back.
use ovp_data_api.Base.{
  ℕ, ◌≤◌, Text, text, obj, member, str, end, Uuid, Bool-cases, inl, inr, some, none, unwrap_or, ok,
  ◌≡◌, refl, sym, ap, ◌∙◌, arith, select,
}
use mathlib.Core.Path.{subst}
use ovp_data_api.Error.{not_found}
use ovp_data_api.State.{SessionStatus, recording, abandoned, status_eq}
use ovp_data_api.State.Names.{status_eq_sound}
use ovp_data_api.App.Inversion.{>>=-ok, exec-ok, get-reads, transaction-ok, audit-keeps}
use ovp_data_api.App.{AppState, World, pure, exec, audit, send, utc_now, transaction, ◌>>=◌, ◌>>◌}
use ovp_data_api.Db.{Session, fetch_or}
use ovp_data_api.Db.Sessions
use ovp_data_api.Db.AuditLog.{Entry}
use ovp_data_api.Db.Sessions.{has_id, resumed}
use ovp_data_api.Db.Sessions.Rows.{row, update_row-ok}
use ovp_data_api.Routes.Sessions.{
  ResumeBody, session_entry, changed, str_or_null, age_seconds, require_abandoned, require_fresh,
  resume, resume_tx,
}

-- `r` is `s` recording again, without its time of abandonment and with all else as it was.
pub record IsResumed (s r : Session) : Type 0 where
  pub status : r.status ≡ recording
  pub cleared : r.abandoned_at ≡ none
  pub kept : record r { status = s.status; abandoned_at = s.abandoned_at } ≡ s

resumed-IsResumed : (s : Session) → IsResumed s (resumed s)
unfolding resumed
resumed-IsResumed s = record { status = refl; cleared = refl; kept = refl }

module _ {St : Type 0} (state : AppState St) where
  open state use {resume_ttl}

  require_abandoned-ok :
      (s : SessionStatus) (w w' : World St)
      → require_abandoned state s w ≡ (ok tt, w')
      → (s ≡ abandoned) × (w' ≡ w)
  unfolding require_abandoned
  require_abandoned-ok s w w' = elim (Bool-cases (status_eq s abandoned)) [
    | inl same ↦ λ e. (status_eq_sound s abandoned same, ground arith)
    | inr other ↦ λ e. ground arith
  ]

  require_fresh-ok :
      (age : ℕ) (w w' : World St)
      → require_fresh state age w ≡ (ok tt, w')
      → (age ≤ resume_ttl) × (w' ≡ w)
  unfolding require_fresh
  require_fresh-ok age w w' e = (ground arith, ground arith)

  -- What the transaction of a resume found and left.
  resume_tx-ok :
      (service : Text) (id : Uuid) (body : ResumeBody) (w w' : World St) (r : Session)
      → resume_tx state service id body w ≡ (ok r, w')
      → (s : Session) × (row id w.db ≡ ok s)
        × (s.status ≡ abandoned)
        × (age_seconds state w.now (unwrap_or s.abandoned_at s.started_at) ≤ resume_ttl)
        × (r ≡ resumed s)
        × (row id w'.db ≡ ok r)
  unfolding resume_tx Sessions.resume_from_abandoned resumed
  resume_tx-ok service id body w w' r e =
      let (s, w₁, got, e₁) = >>=-ok (exec (Sessions.get id) w) _ r w' e in
      let (found, same₁) = get-reads id s w w₁ got in
      let (_, w₂, isa, e₂) = >>=-ok (require_abandoned state s.status w₁) _ r w' e₁ in
      let (is_abandoned, same₂) = require_abandoned-ok s.status w₁ w₂ isa in
      let (_, w₃, isf, e₃) =
        >>=-ok
          (require_fresh state (age_seconds state w₂.now (unwrap_or s.abandoned_at s.started_at))
            w₂)
          _ r w' e₂ in
      let (fresh, same₃) = require_fresh-ok _ w₂ w₃ isf in
      let (u, w₄, upd, e₄) = >>=-ok (exec (Sessions.resume_from_abandoned id) w₃) _ r w' e₃ in
      let (db, done, left) = exec-ok (Sessions.resume_from_abandoned id w₃.now w₃.db) w₃ u w₄ upd in
      let (s', was, is, reads) = update_row-ok id resumed w₃.db u db (λ t. refl) done in
      let (_, w₅, logged, e₅) = >>=-ok (audit (entry) w₄) (λ (_ : Unit {0}). pure u) r w' e₄ in
      let same : w₃ ≡ w = same₃ ∙ (same₂ ∙ same₁) in
      let again : row id w.db ≡ ok s' = ap (λ (v : World St). row id v.db) (sym same) ∙ was in
      let one : s' ≡ s = ground (arith) in
      let answer : r ≡ u = ground arith in
      let last : w' ≡ w₅ = ground arith in
      let kept : w'.db.sessions ≡ db.sessions =
        ap (λ (v : World St). v.db.sessions) last
        ∙ ((audit-keeps entry w₄ w₅ logged).0 ∙ ap (λ (v : World St). v.db.sessions) left) in
      (
        s,
        found,
        is_abandoned,
        rw (sym (same₂ ∙ same₁)) fresh,
        answer ∙ (is ∙ ap resumed one),
        ap (λ ss. fetch_or not_found (select (has_id id) ss)) kept ∙ (reads ∙ ap ok (sym answer)),
      )
    where
      entry : Entry
      entry = session_entry state service id (text "resumed") (
          some (
            obj (
              member (text "by") (str body.resumed_by_service_name)
                (member (text "reason") (str_or_null body.reason) end))))

  -- A resume that succeeds found an abandoned session, abandoned no longer ago than the TTL (counted
  -- from its start where the time is missing); its answer is that session recording again, with the
  -- time of abandonment cleared and all else as it was, and it is what the next read finds.
  pub resume-IsResumed :
      (service : Text) (id : Uuid) (body : ResumeBody) (w w' : World St) (r : Session)
      → resume state service id body w ≡ (ok r, w')
      → (s : Session) × (row id w.db ≡ ok s)
        × (s.status ≡ abandoned)
        × (age_seconds state w.now (unwrap_or s.abandoned_at s.started_at) ≤ resume_ttl)
        × IsResumed s r
        × (row id w'.db ≡ ok r)
  unfolding resume
  resume-IsResumed service id body w w' r e =
      let (u, w₁, ran, e₁) =
        >>=-ok (transaction (resume_tx state service id body) w)
          (λ (v : Session).
            utc_now >>= λ now. send (changed state id v.guild_id abandoned recording now) >> pure v)
          r w' e in
      let (s, found, is_abandoned, fresh, is, reads) =
        resume_tx-ok service id body w w₁ u
          (transaction-ok w.db (resume_tx state service id body w) u w₁ ran) in
      let answer : u ≡ r = ground arith in
      let kept : w₁.db ≡ w'.db = ground arith in
      (
        s,
        found,
        is_abandoned,
        fresh,
        subst (IsResumed s) (sym is ∙ answer) (resumed-IsResumed s),
        ap (row id) (sym kept) ∙ (reads ∙ ap ok answer),
      )
