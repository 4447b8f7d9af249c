-- ===== src/History/Sessions.antt =====
-- src/routes/sessions.rs: the handlers keep what the statements keep.
use ovp_data_api.Base.{
  ℕ, pos, Bool-cases, inl, inr, ltb, ◌||◌, is_some, unwrap_or, select, Text, Uuid, List, [], ◌∷◌,
  Option, none, some, refl, ok, err,
}
use ovp_data_api.App.{AppState}
use ovp_data_api.Db.{Session, reading}
use ovp_data_api.Db.Sessions
use ovp_data_api.Db.Uniform
use ovp_data_api.State.{SessionStatus, deleted, abandoned, can_transition, status_eq}
use ovp_data_api.History.Evolve.{
  Evolution, Steps, Moves, Moved, runs, within, after, next, reading-Moved,
}
use ovp_data_api.History.Laws.{Laws}
use ovp_data_api.Routes.Sessions as Handlers

module _ {St : Type 0} (state : AppState St) {E : Evolution} {actor : Text}
    (laws : Laws E actor) where
  pub get-Steps : (id : Uuid) → Steps E (Sessions.get id)
  unfolding Sessions.get
  get-Steps id = record { step = λ now db. reading-Moved E db _ }

  summary-Steps : (id : Uuid) → Steps E (Sessions.summary id)
  unfolding Sessions.summary
  summary-Steps id = record { step = λ now db. E.stays db }

  list-Steps : (f : Sessions.ListFilter) → Steps E (Sessions.list f)
  unfolding Sessions.list
  list-Steps f = record {
    step = λ now db.
        (elim (Sessions.parse_status f.status)
          as (λ r. Moved E.rel db (elim r [
            | err e ↦ err e
            | ok status ↦ reading db (
                Sessions.page (unwrap_or f.limit (pos 100)) (unwrap_or f.offset (pos 0))
                  (Sessions.newest_first (select (Sessions.passes status f.guild_id) db.sessions)))
          ])) [ ok status ↦ reading-Moved E db _ | err e ↦ tt ]);
  }

  pub create-Moves : (i : Sessions.CreateSession) → Moves E (Handlers.create state actor i)
  unfolding Handlers.create
  create-Moves i b w h = after (runs (laws.session_create i) _ h) λ session w₁ h₁.
      after (runs (laws.audit_append _ _ refl) _ h₁) λ _ w₂ h₂. record { later = h₂ }

  pub fetch-Moves : (id : Uuid) → Moves E (Handlers.fetch state id)
  unfolding Handlers.fetch
  fetch-Moves id b w h = runs (get-Steps id) _ h

  pub list-Moves : (f : Sessions.ListFilter) → Moves E (Handlers.list state f)
  unfolding Handlers.list
  list-Moves f b w h = runs (list-Steps f) _ h

  pub summary-Moves : (id : Uuid) → Moves E (Handlers.summary state id)
  unfolding Handlers.summary
  summary-Moves id b w h = runs (summary-Steps id) _ h

  patch_status-Moves :
      (id : Uuid) (existing : Session) (status : Option SessionStatus)
      → Moves E (Handlers.patch_status state id existing status)
  unfolding Handlers.patch_status
  patch_status-Moves id existing none b w h = record { later = h }
  patch_status-Moves id existing (some new) b w h =
      elim (Bool-cases (can_transition existing.status new)) [
        | inl e ↦
            rw e
              (after (runs (laws.session_status id new) _ h) λ updated w₁ h₁. record { later = h₁ })
        | inr e ↦ rw e (record { later = h })
      ]

  patch_rest-Moves :
      (id : Uuid) (updated : Session) (body : Handlers.PatchSession)
      → Moves E (Handlers.patch_rest state id updated body)
  unfolding Handlers.patch_rest
  patch_rest-Moves id updated body b w h =
      elim (Bool-cases (is_some body.ended_at || is_some body.participant_count)) [
        | inl e ↦ rw e (runs (laws.session_fields id _ _) _ h)
        | inr e ↦ rw e (record { later = h })
      ]

  announce-Moves :
      (id : Uuid) (updated : Session) (move : Option (SessionStatus × SessionStatus))
      → Moves E (Handlers.announce state id updated move)
  unfolding Handlers.announce
  announce-Moves id updated none b w h = record { later = h }
  announce-Moves id updated (some (old, new)) b w h = record { later = h }

  patch_tx-Moves :
      (id : Uuid) (body : Handlers.PatchSession) → Moves E (Handlers.patch_tx state actor id body)
  unfolding Handlers.patch_tx
  patch_tx-Moves id body b w h = after (runs (get-Steps id) _ h) λ existing w₁ h₁.
      after (patch_status-Moves id existing body.status b w₁ h₁) λ moved w₂ h₂.
        after (patch_rest-Moves id moved.0 body b w₂ h₂) λ updated w₃ h₃.
          after (runs (laws.audit_append _ _ refl) _ h₃) λ _ w₄ h₄. record { later = h₄ }

  pub patch-Moves :
      (id : Uuid) (body : Handlers.PatchSession) → Moves E (Handlers.patch state actor id body)
  unfolding Handlers.patch
  patch-Moves id body b w h =
      after (within w _ h (patch_tx-Moves id body b w h)) λ done w₁ h₁.
        after (announce-Moves id done.0 done.1 b w₁ h₁) λ _ w₂ h₂. record { later = h₂ }

  require_abandoned-Moves : (s : SessionStatus) → Moves E (Handlers.require_abandoned state s)
  unfolding Handlers.require_abandoned
  require_abandoned-Moves s b w h = elim (Bool-cases (status_eq s abandoned)) [
    | inl e ↦ rw e (record { later = h })
    | inr e ↦ rw e (record { later = h })
  ]

  require_fresh-Moves : (age : ℕ) → Moves E (Handlers.require_fresh state age)
  unfolding Handlers.require_fresh
  require_fresh-Moves age b w h = elim (Bool-cases (ltb state.resume_ttl age)) [
    | inl e ↦ rw e (record { later = h })
    | inr e ↦ rw e (record { later = h })
  ]

  resume_tx-Moves :
      (id : Uuid) (body : Handlers.ResumeBody) → Moves E (Handlers.resume_tx state actor id body)
  unfolding Handlers.resume_tx
  resume_tx-Moves id body b w h = after (runs (get-Steps id) _ h) λ existing w₁ h₁.
      after (require_abandoned-Moves existing.status b w₁ h₁) λ _ w₂ h₂.
        after (require_fresh-Moves _ b w₂ h₂) λ _ w₃ h₃.
          after (runs (laws.session_resume id) _ h₃) λ updated w₄ h₄.
            after (runs (laws.audit_append _ _ refl) _ h₄) λ _ w₅ h₅. record { later = h₅ }

  pub resume-Moves :
      (id : Uuid) (body : Handlers.ResumeBody) → Moves E (Handlers.resume state actor id body)
  unfolding Handlers.resume
  resume-Moves id body b w h =
      after (within w _ h (resume_tx-Moves id body b w h)) λ updated w₁ h₁. record { later = h₁ }

  pub sweep-Moves : (keys : List Text) → Moves E (Handlers.sweep state keys)
  unfolding Handlers.sweep
  sweep-Moves [] b w h = record { later = h }
  sweep-Moves (k ∷ ks) b w h = record { later = h }

  delete_tx-Moves : (id : Uuid) → Moves E (Handlers.delete_tx state actor id)
  unfolding Handlers.delete_tx
  delete_tx-Moves id b w h = after (runs (get-Steps id) _ h) λ existing w₁ h₁.
      after (runs (laws.chunk_session id) _ h₁) λ keys w₂ h₂.
        after (runs (laws.row_session Uniform.segments id) _ h₂) λ segs w₃ h₃.
          after (runs (laws.row_session Uniform.beats id) _ h₃) λ bs w₄ h₄.
            after (runs (laws.row_session Uniform.scenes id) _ h₄) λ ss w₅ h₅.
              after (runs (laws.mute_session id) _ h₅) λ mutes w₆ h₆.
                next (runs (laws.session_metadata id) _ h₆) λ w₇ h₇.
                  next (runs (laws.session_participants id) _ h₇) λ w₈ h₈.
                    after (runs (laws.session_status id deleted) _ h₈) λ updated w₉ h₉.
                      after (runs (laws.audit_append _ _ refl) _ h₉)
                        λ _ w' h'. record { later = h' }

  pub delete_cascade-Moves : (id : Uuid) → Moves E (Handlers.delete_cascade state actor id)
  unfolding Handlers.delete_cascade
  delete_cascade-Moves id b w h =
      after (within w _ h (delete_tx-Moves id b w h))
        λ done w₁ h₁. after (sweep-Moves done.2 b w₁ h₁) λ _ w₂ h₂. record { later = h₂ }
