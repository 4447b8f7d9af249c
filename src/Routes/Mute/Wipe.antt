-- ===== src/Routes/Mute/Wipe.antt =====
-- src/routes/mute.rs: what a wipe leaves of a participant's audio.
use ovp_data_api.Base.{
  ℕ, text, obj, Text, Uuid, List, [], ◌∷◌, Bool, true, false, ◌≡◌, refl, select, delete,
  select-delete, select-delete_other, ok,
}
use ovp_data_api.Error.{not_found}
use ovp_data_api.Ids.{PseudoId, is_valid_pseudo_id}
use ovp_data_api.Ids
use ovp_data_api.App.{AppState, World}
use ovp_data_api.Db.{Db}
use ovp_data_api.Db.AuditLog
use ovp_data_api.Db.Chunks
use ovp_data_api.Db.MuteRanges
use ovp_data_api.Db.Participants
use ovp_data_api.Db.Uniform
use ovp_data_api.History.Evolve.{Evolution, Steps, Later, runs, after, next}
use ovp_data_api.History.Mute.{guild-Steps}
use ovp_data_api.Routes.Mute.{audio_entry, wiped_counts, wipe_participant_audio}
use ovp_data_api.Routes.Sessions.{sweep}

-- The rows that `p` selects are gone, and those that it does not select are as they were.
abbrev pub Erased : {A : Type 0} → (A → Bool) → List A → List A → Type 0
Erased {A} p before rows =
    (select p rows ≡ [])
    × ((keep : A → Bool)
        → ((x : A) → keep x ≡ true → p x ≡ false)
        → select keep rows ≡ select keep before)

-- `b` is `a` without the participant's audio of the session: its chunks, the segments of its speech
-- and its mute ranges.
unfoldable pub IsWiped : Uuid → PseudoId → Db → Db → Type 0
IsWiped id p a b =
    Erased (Chunks.of_stream id p) a.chunks b.chunks
    × Erased (Uniform.of_participant id p) a.segments b.segments
    × Erased (MuteRanges.of_stream id p) a.mute_ranges b.mute_ranges

delete-Erased : {A : Type 0} (p : A → Bool) (rows : List A) → Erased p rows (delete p rows)
delete-Erased p rows = (select-delete p rows, λ keep h. select-delete_other p keep rows h)

abbrev pub emptied : Uuid → PseudoId → Db → Db
emptied id p db = record db {
  chunks = delete (Chunks.of_stream id p) db.chunks;
  segments = delete (Uniform.of_participant id p) db.segments;
  mute_ranges = delete (MuteRanges.of_stream id p) db.mute_ranges;
}

pub emptied-IsWiped : (id : Uuid) (p : PseudoId) (db : Db) → IsWiped id p db (emptied id p db)
unfolding IsWiped
emptied-IsWiped id p db = (
  delete-Erased (Chunks.of_stream id p) db.chunks,
  delete-Erased (Uniform.of_participant id p) db.segments,
  delete-Erased (MuteRanges.of_stream id p) db.mute_ranges,
)

-- What comes after the deletions keeps the audio wiped.
abbrev pub cleaned : Uuid → PseudoId → Db → Evolution
cleaned id p before = record {
  rel = λ a b. IsWiped id p before a → IsWiped id p before b;
  stays = λ db h. h;
  joins = λ a b c f g h. g (f h);
}

pub wiped-Steps :
    (id : Uuid) (p : PseudoId) (before : Db)
    → Steps (cleaned id p before) (Participants.mark_wiped id p)
unfolding Participants.mark_wiped IsWiped
wiped-Steps id p before = record { step = λ now db h. h }

new-valid : (s : Text) → is_valid_pseudo_id s ≡ true → Ids.new s ≡ ok (record { as_str = s })
unfolding Ids.new
new-valid s h = rw h refl

module _ {St : Type 0} (state : AppState St) where
  pub sweep-Later :
      {E : Evolution} (keys : List Text) (b : Db) (w : World St)
      → E.rel b w.db
      → Later E b (sweep state keys w)
  unfolding sweep
  sweep-Later [] b w h = record { later = h }
  sweep-Later (k ∷ ks) b w h = record { later = h }

  -- A wipe of a participant's audio, for a well-formed pseudonym and where the audit log takes the
  -- row that the wipe adds, leaves no chunk, no segment and no mute range of the participant in the
  -- session, and every other row of the three tables as it was, also where the request goes on to
  -- fail because the session does not exist.
  pub wipe_participant_audio-IsWiped :
      (service : Text) (id : Uuid) (pid : Text) (w : World St)
      → is_valid_pseudo_id pid ≡ true
      → ((chunks segments mutes : ℕ)
          → AuditLog.admits
              (w.uuids w.drawn)
              (audio_entry state service
                (text "wiped")
                (record { as_str = pid })
                id
                (obj (wiped_counts chunks segments mutes)))
              w.db.audit_log
            ≡ true)
      → IsWiped id
          (record { as_str = pid })
          w.db
          (wipe_participant_audio state service id pid w).1.db
  unfolding wipe_participant_audio IsWiped AuditLog.append Chunks.delete_for_participant
      Uniform.delete_for_participant_segments MuteRanges.delete_for_participant
  wipe_participant_audio-IsWiped service id pid w valid logs =
      let p : PseudoId = record { as_str = pid } in
      rw (new-valid pid valid, logs)
        ((next {b = emptied id p w.db} (runs (wiped-Steps id p w.db) _ (λ h. h)) λ w₁ h₁.
            next (sweep-Later _ _ w₁ h₁) λ w₂ h₂.
              after (runs (guild-Steps (cleaned id p w.db) not_found id) w₂ h₂)
                λ g w₃ h₃. record { later = h₃ }).later
          (emptied-IsWiped id p w.db))
