-- ===== src/Routes/Consent/Wipe.antt =====
-- src/routes/consent.rs: what the deletion of audio through a consent page leaves.
use ovp_data_api.Base.{ℕ, pos, text, obj, member, num, end, true, Uuid, some, ok, ◌≡◌}
use ovp_data_api.Error.{database}
use ovp_data_api.App.{AppState, World}
use ovp_data_api.Db.AuditLog
use ovp_data_api.Db.Chunks
use ovp_data_api.Db.ConsentTokens.{ConsentTokenWithContext, validate}
use ovp_data_api.Db.MuteRanges
use ovp_data_api.Db.Uniform
use ovp_data_api.History.Evolve.{runs, after, next}
use ovp_data_api.History.Mute.{guild-Steps}
use ovp_data_api.Routes.Consent.{consent_token, delete_audio}
use ovp_data_api.Routes.Mute.{audio_entry}
use ovp_data_api.Routes.Mute.Wipe.{
  IsWiped, emptied, emptied-IsWiped, cleaned, wiped-Steps, sweep-Later,
}

-- A deletion through a consent page whose token validates, where the audit log takes the row that the
-- deletion adds, leaves no chunk, no segment and no mute range of the token's participant in the
-- token's session, and every other row of the three tables as it was, however the sweep of the
-- object store and the lookup of the guild end.
pub delete_audio-IsWiped :
    {St : Type 0} (state : AppState St) (token : Uuid) (w : World St)
    (ctx : ConsentTokenWithContext)
    → validate token w.now w.db ≡ ok (some ctx, w.db)
    → ((chunks : ℕ)
        → AuditLog.admits
            (w.uuids w.drawn)
            (audio_entry state consent_token
              (text "wiped_via_token")
              ctx.participant.pseudo_id
              ctx.session.id
              (obj (member (text "chunk_count") (num (pos chunks)) end)))
            w.db.audit_log
          ≡ true)
    → IsWiped ctx.session.id ctx.participant.pseudo_id w.db (delete_audio state token w).1.db
unfolding delete_audio IsWiped AuditLog.append Chunks.delete_for_participant
    Uniform.delete_for_participant_segments MuteRanges.delete_for_participant
delete_audio-IsWiped state token w ctx valid logs =
    let id = ctx.session.id in
    let p = ctx.participant.pseudo_id in
    rw (valid, logs)
      ((next {b = emptied id p w.db} (runs (wiped-Steps id p w.db) _ (λ h. h)) λ w₁ h₁.
          next (sweep-Later state _ _ w₁ h₁) λ w₂ h₂.
            after (runs (guild-Steps (cleaned id p w.db) database id) w₂ h₂)
              λ g w₃ h₃. record { later = h₃ }).later
        (emptied-IsWiped id p w.db))
