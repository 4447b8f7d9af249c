-- ===== src/History/Mute.antt =====
-- src/routes/mute.rs and src/routes/consent.rs: the handlers keep what the statements keep.
use ovp_data_api.Base.{
  Text, Uuid, Option, none, some, Bool-cases, inl, inr, ◌||◌, is_some, refl, ok, select, first,
}
use ovp_data_api.Error.{AppError, not_found, database}
use ovp_data_api.Ids.{PseudoId}
use ovp_data_api.Ids
use ovp_data_api.App.{AppState, World}
use ovp_data_api.Db.{Db, Participant, ConsentToken, reading}
use ovp_data_api.Db.ConsentTokens
use ovp_data_api.Db.ConsentTokens.{ConsentTokenWithContext, context}
use ovp_data_api.Db.MuteRanges
use ovp_data_api.History.Evolve.{
  Evolution, Steps, Moves, Moved, Later, runs, within, checks, after, next, reading-Moved,
}
use ovp_data_api.History.Laws.{Laws}
use ovp_data_api.History.Sessions.{sweep-Moves}
use ovp_data_api.Routes.Consent as Consent
use ovp_data_api.Routes.Guild.{guild_id_or}
use ovp_data_api.Routes.Mute as Handlers

pub guild-Steps : (E : Evolution) (e : AppError) (id : Uuid) → Steps E (guild_id_or e id)
guild-Steps E e id = record { step = λ now db. reading-Moved E db _ }

module _ {E : Evolution} {actor : Text} (laws : Laws E actor) where
  list-Steps : (id : Uuid) (p : PseudoId) → Steps E (MuteRanges.list id p)
  unfolding MuteRanges.list
  list-Steps id p = record { step = λ now db. E.stays db }

  validated :
      (db : Db) (found : Option ConsentToken)
      → Moved E.rel db (elim found [ none ↦ ok (none, db) | some t ↦ reading db (context t db) ])
  validated db none = E.stays db
  validated db (some t) = reading-Moved E db _

  validate-Steps : (token : Uuid) → Steps E (ConsentTokens.validate token)
  unfolding ConsentTokens.validate
  validate-Steps token = record {
    step =
        λ now db. validated db (first (select (ConsentTokens.is_open token now) db.consent_tokens));
  }

  module _ {St : Type 0} (state : AppState St) where
    pub list_mutes-Moves : (id : Uuid) (pid : Text) → Moves E (Handlers.list_mutes state id pid)
    unfolding Handlers.list_mutes
    list_mutes-Moves id pid b w h =
        after (checks (Ids.new pid) w h) λ p w₁ h₁. runs (list-Steps id p) w₁ h₁

    pub create_mute-Moves :
        (id : Uuid) (pid : Text) (m : MuteRanges.CreateMuteRange)
        → Moves E (Handlers.create_mute state actor id pid m)
    unfolding Handlers.create_mute
    create_mute-Moves id pid m b w h = after (checks (Ids.new pid) w h) λ p w₁ h₁.
        after (runs (laws.mute_create _ id p m) _ h₁) λ row w₂ h₂.
          next (runs (laws.audit_append _ _ refl) _ h₂) λ w₃ h₃.
            after (runs (guild-Steps E not_found id) w₃ h₃) λ g w₄ h₄. record { later = h₄ }

    pub delete_mute-Moves :
        (id : Uuid) (pid : Text) (range_id : Uuid)
        → Moves E (Handlers.delete_mute state actor id pid range_id)
    unfolding Handlers.delete_mute
    delete_mute-Moves id pid range_id b w h = after (checks (Ids.new pid) w h) λ p w₁ h₁.
        after (runs (laws.mute_delete id p range_id) w₁ h₁) λ row w₂ h₂.
          next (runs (laws.audit_append _ _ refl) _ h₂) λ w₃ h₃.
            after (runs (guild-Steps E not_found id) w₃ h₃) λ g w₄ h₄. record { later = h₄ }

    wipe_tx-Moves : (id : Uuid) (p : PseudoId) → Moves E (Handlers.wipe_tx state actor id p)
    unfolding Handlers.wipe_tx
    wipe_tx-Moves id p b w h = after (runs (laws.chunk_stream id p) w h) λ keys w₁ h₁.
        after (runs (laws.row_stream id p) w₁ h₁) λ segs w₂ h₂.
          after (runs (laws.mute_stream id p) w₂ h₂) λ mutes w₃ h₃.
            next (runs (laws.audit_append _ _ refl) _ h₃) λ w₄ h₄. record { later = h₄ }

    pub wipe-Moves :
        (id : Uuid) (pid : Text) → Moves E (Handlers.wipe_participant_audio state actor id pid)
    unfolding Handlers.wipe_participant_audio
    wipe-Moves id pid b w h = after (checks (Ids.new pid) w h) λ p w₁ h₁.
        after (within w₁ _ h₁ (wipe_tx-Moves id p b w₁ h₁)) λ done w₂ h₂.
          next (runs (laws.participant_wiped id p) w₂ h₂) λ w₃ h₃.
            next (sweep-Moves state laws done.0 b w₃ h₃) λ w₄ h₄.
              after (runs (guild-Steps E not_found id) w₄ h₄) λ g w₅ h₅. record { later = h₅ }

    pub create_token-Moves :
        (i : Consent.CreateTokenRequest) → Moves E (Consent.create_token state actor i)
    unfolding Consent.create_token
    create_token-Moves i b w h =
        after (runs (laws.token_create _ i.session_id i.participant_id i.pseudo_id) _ h)
          λ ct w₁ h₁. next (runs (laws.audit_append _ _ refl) _ h₁) λ w₂ h₂. record { later = h₂ }

    pub found-Moves :
        (o : Option ConsentTokenWithContext) (b : Db) (w : World St)
        → E.rel b w.db
        → Later E b (Consent.found state o w)
    found-Moves none b w h = record { later = h }
    found-Moves (some ctx) b w h = record { later = h }

    pub get_consent-Moves : (token : Uuid) → Moves E (Consent.get_consent state token)
    unfolding Consent.get_consent
    get_consent-Moves token b w h =
        after (runs (validate-Steps token) w h) λ v w₁ h₁. found-Moves v b w₁ h₁

    patch_scope-Moves :
        (p : Participant) (scope : Option Text) → Moves E (Consent.patch_scope state p scope)
    unfolding Consent.patch_scope
    patch_scope-Moves p none b w h = record { later = h }
    patch_scope-Moves p (some scope) b w h = runs (laws.participant_consent p.id _) w h

    patch_flags-Moves :
        (p : Participant) (id : Uuid) (i : Consent.PatchConsent)
        → Moves E (Consent.patch_flags state p id i)
    unfolding Consent.patch_flags
    patch_flags-Moves p id i b w h =
        elim (Bool-cases (is_some i.no_llm_training || is_some i.no_public_release)) [
          | inl e ↦ rw (Consent.patch_flags, e) (runs (laws.participant_license id _) w h)
          | inr e ↦ rw (Consent.patch_flags, e) (record { later = h })
        ]

module _ {E : Evolution} (laws : Laws E Consent.consent_token) {St : Type 0}
    (state : AppState St) where
  pub patch_consent-Moves :
      (token : Uuid) (i : Consent.PatchConsent) → Moves E (Consent.patch_consent state token i)
  unfolding Consent.patch_consent
  patch_consent-Moves token i b w h = after (runs (validate-Steps laws token) w h) λ v w₁ h₁.
      after (found-Moves laws state v b w₁ h₁) λ ctx w₂ h₂.
        after (patch_scope-Moves laws state ctx.participant i.consent_scope b w₂ h₂) λ scoped w₃ h₃.
          after (patch_flags-Moves laws state scoped ctx.participant.id i b w₃ h₃) λ updated w₄ h₄.
            next (runs (laws.audit_append _ _ refl) _ h₄) λ w₅ h₅. record { later = h₅ }

  delete_tx-Moves : (id : Uuid) (p : PseudoId) → Moves E (Consent.delete_tx state id p)
  unfolding Consent.delete_tx
  delete_tx-Moves id p b w h = after (runs (laws.chunk_stream id p) w h) λ keys w₁ h₁.
      after (runs (laws.row_stream id p) w₁ h₁) λ segs w₂ h₂.
        after (runs (laws.mute_stream id p) w₂ h₂) λ mutes w₃ h₃.
          next (runs (laws.audit_append _ _ refl) _ h₃) λ w₄ h₄. record { later = h₄ }

  pub delete_audio-Moves : (token : Uuid) → Moves E (Consent.delete_audio state token)
  unfolding Consent.delete_audio
  delete_audio-Moves token b w h = after (runs (validate-Steps laws token) w h) λ v w₁ h₁.
      after (found-Moves laws state v b w₁ h₁) λ ctx w₂ h₂.
        let id = ctx.session.id in
        let p = ctx.participant.pseudo_id in
        after (within w₂ _ h₂ (delete_tx-Moves id p b w₂ h₂)) λ keys w₃ h₃.
          next (runs (laws.participant_wiped id p) w₃ h₃) λ w₄ h₄.
            next (sweep-Moves state laws keys b w₄ h₄) λ w₅ h₅.
              after (runs (guild-Steps E database id) w₅ h₅) λ g w₆ h₆. record { later = h₆ }
