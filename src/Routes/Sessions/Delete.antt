-- ===== src/Routes/Sessions/Delete.antt =====
-- src/routes/sessions.rs: what `delete_cascade` leaves of a session.
use ovp_data_api.Base.{
  Text, Uuid, List, [], ◌∷◌, Result, ok, ◌≡◌, refl, sym, ap, ◌∙◌, arith, ◌==◌, select, delete,
  update, select-delete, select-delete_other, ◌≢◌, true, false, Json,
}
use mathlib.Core.Path.{subst}
use ovp_data_api.Error.{AppError}
use ovp_data_api.State.{deleted}
use ovp_data_api.App.Inversion.{>>=-ok, exec-ok, get-reads, transaction-ok, audit-keeps}
use ovp_data_api.App.{AppState, World, exec, audit, transaction}
use ovp_data_api.Db.{Db, Session, ChunkRow, StoredRow, MuteRange, MetadataBlob, Participant}
use ovp_data_api.Db.Sessions
use ovp_data_api.Db.Sessions.{has_id, with_status}
use ovp_data_api.Db.Sessions.Rows.{row, update_row-ok, update_row-left}
use ovp_data_api.Db.Chunks
use ovp_data_api.Db.Uniform
use ovp_data_api.Db.MuteRanges
use ovp_data_api.Routes.Sessions.{
  delete_tx, delete_cascade, delete_metadata, delete_participants, participant_ids, sweep,
}

-- No table that depends on the session has a row of it.
unfoldable pub IsErased : Uuid → Db → Type 0
IsErased id db =
    (select (λ (c : ChunkRow). c.session_id == id) db.chunks ≡ [])
    × (select (λ (r : StoredRow). r.session_id == id) db.segments ≡ [])
    × (select (λ (r : StoredRow). r.session_id == id) db.beats ≡ [])
    × (select (λ (r : StoredRow). r.session_id == id) db.scenes ≡ [])
    × (select (λ (m : MuteRange). m.session_id == id) db.mute_ranges ≡ [])
    × (select (λ (m : MetadataBlob). m.session_id == id) db.metadata ≡ [])
    × (select (λ (p : Participant). p.session_id == id) db.participants ≡ [])

-- The database after the deletions.
abbrev emptied : Uuid → Db → Db
emptied id db = record db {
  chunks = delete (λ c. c.session_id == id) db.chunks;
  segments = delete (λ r. r.session_id == id) db.segments;
  beats = delete (λ r. r.session_id == id) db.beats;
  scenes = delete (λ r. r.session_id == id) db.scenes;
  mute_ranges = delete (λ m. m.session_id == id) db.mute_ranges;
  metadata = delete (λ m. m.session_id == id) db.metadata;
  participants = delete (λ p. p.session_id == id) db.participants;
  consent_tokens = delete (λ t. participant_ids id db t.participant_id) db.consent_tokens;
}

emptied-IsErased : (id : Uuid) (db : Db) → IsErased id (emptied id db)
unfolding IsErased
emptied-IsErased id db = (
  select-delete _ db.chunks,
  select-delete _ db.segments,
  select-delete _ db.beats,
  select-delete _ db.scenes,
  select-delete _ db.mute_ranges,
  select-delete _ db.metadata,
  select-delete _ db.participants,
)

-- The rows of another session are as they were.
unfoldable pub Spares : Uuid → Db → Db → Type 0
Spares id before db =
    (j : Uuid)
    → j ≢ id
    → (select (λ (c : ChunkRow). c.session_id == j) db.chunks
        ≡ select (λ c. c.session_id == j) before.chunks)
      × (select (λ (r : StoredRow). r.session_id == j) db.segments
          ≡ select (λ r. r.session_id == j) before.segments)
      × (select (λ (r : StoredRow). r.session_id == j) db.beats
          ≡ select (λ r. r.session_id == j) before.beats)
      × (select (λ (r : StoredRow). r.session_id == j) db.scenes
          ≡ select (λ r. r.session_id == j) before.scenes)
      × (select (λ (m : MuteRange). m.session_id == j) db.mute_ranges
          ≡ select (λ m. m.session_id == j) before.mute_ranges)
      × (select (λ (m : MetadataBlob). m.session_id == j) db.metadata
          ≡ select (λ m. m.session_id == j) before.metadata)
      × (select (λ (p : Participant). p.session_id == j) db.participants
          ≡ select (λ p. p.session_id == j) before.participants)

apart : (i j k : Uuid) → j ≢ k → (i == j) ≡ true → (i == k) ≡ false
apart i j k other same = ground arith

emptied-Spares : (id : Uuid) (db : Db) → Spares id db (emptied id db)
unfolding Spares
emptied-Spares id db j other = (
  select-delete_other _ _ db.chunks (λ c. apart c.session_id j id other),
  select-delete_other _ _ db.segments (λ r. apart r.session_id j id other),
  select-delete_other _ _ db.beats (λ r. apart r.session_id j id other),
  select-delete_other _ _ db.scenes (λ r. apart r.session_id j id other),
  select-delete_other _ _ db.mute_ranges (λ m. apart m.session_id j id other),
  select-delete_other _ _ db.metadata (λ m. apart m.session_id j id other),
  select-delete_other _ _ db.participants (λ p. apart p.session_id j id other),
)

module _ {St : Type 0} (state : AppState St) where
  delete_tx-IsErased :
      (service : Text) (id : Uuid) (w w' : World St) (old new : Session) (keys : List Text)
      → delete_tx state service id w ≡ (ok (old, new, keys), w')
      → (row id w.db ≡ ok old)
        × IsErased id w'.db
        × Spares id w.db w'.db
        × (row id w'.db ≡ ok new)
        × (new.status ≡ deleted)
  unfolding delete_tx Chunks.delete_for_session Uniform.delete_all_for_session
      MuteRanges.delete_for_session delete_metadata delete_participants Sessions.update_status
      with_status IsErased Spares
  delete_tx-IsErased service id w w' old new keys e =
      let (s, w₁, got, e₁) = >>=-ok (exec (Sessions.get id) w) _ (old, new, keys) w' e in
      let (found, same₁) = get-reads id s w w₁ got in
      let (u, w₂, upd, e₂) =
        >>=-ok (exec (Sessions.update_status id deleted) (record w₁ { db = emptied id w₁.db })) _
          (old, new, keys) w' e₁ in
      let (db, done, left) =
        exec-ok (Sessions.update_status id deleted w₁.now (emptied id w₁.db))
          (record w₁ { db = emptied id w₁.db }) u w₂ upd in
      let (s', was, is, reads) =
        update_row-ok id (with_status deleted w₁.now) (emptied id w₁.db) u db (λ x. refl) done in
      let (_, w₃, logged, e₃) = >>=-ok (audit _ w₂) _ (old, new, keys) w' e₂ in
      let rest : record w'.db { audit_log = [] } ≡ record w₂.db { audit_log = [] } =
        ap
          (λ (x : Result AppError (Session × Session × List Text) × World St). record x.1.db {
            audit_log = [];
          })
          (sym e₃)
        ∙ (audit-keeps _ w₂ w₃ logged).2 in
      let same : record w'.db { audit_log = [] } ≡ record (emptied id w₁.db) {
        audit_log = [];
        sessions = update (has_id id) (with_status deleted w₁.now) w₁.db.sessions;
      } =
        rest
        ∙ (ap (λ (x : World St). record x.db { audit_log = [] }) left
            ∙ ap (λ (d : Db). record d { audit_log = [] })
                (update_row-left id (with_status deleted w₁.now) (emptied id w₁.db) u db done)) in
      let answer : u ≡ new = ground arith in
      let was_old : s ≡ old = ground arith in
      let reads' : row id w'.db ≡ row id db =
        ap (row id) rest ∙ ap (λ (x : World St). row id x.db) left in
      (
        found ∙ ap ok was_old,
        subst (IsErased id) (sym same) (emptied-IsErased id w₁.db),
        subst (λ b. Spares id b w'.db) (ap (λ (x : World St). x.db) same₁)
            (subst (Spares id w₁.db) (sym same) (emptied-Spares id w₁.db)),
        reads' ∙ (reads ∙ ap ok answer),
        ap (λ (x : Session). x.status) (sym answer ∙ is),
      )

  sweep-keeps :
      (keys : List Text) (w w' : World St) → sweep state keys w ≡ (ok tt, w') → w'.db ≡ w.db
  unfolding sweep
  sweep-keeps [] w w' e = ground arith
  sweep-keeps (k ∷ ks) w w' e = ap (λ (x : Result AppError (Unit {0}) × World St). x.1.db) (sym e)

  -- After a deletion that succeeds no chunk, segment, beat, scene, mute range, metadata or
  -- participant of the session is left, whatever the object store answered, those of every other
  -- session are as they were, and the session itself is found with the status `deleted`.
  pub delete_cascade-IsErased :
      (service : Text) (id : Uuid) (w w' : World St) (answer : Json)
      → delete_cascade state service id w ≡ (ok answer, w')
      → IsErased id w'.db
        × Spares id w.db w'.db
        × (new : Session) × (row id w'.db ≡ ok new)
        × (new.status ≡ deleted)
  unfolding delete_cascade
  delete_cascade-IsErased service id w w' answer e =
      let (done, w₁, ran, e₁) =
        >>=-ok {A = Session × Session × List Text} (transaction (delete_tx state service id) w) _
          answer w' e in
      let (_, erased, spared, reads, gone) =
        delete_tx-IsErased service id w w₁ done.0 done.1 done.2
          (transaction-ok w.db (delete_tx state service id w) done w₁ ran) in
      let (_, w₂, swept, e₂) = >>=-ok (sweep state done.2 w₁) _ answer w' e₁ in
      let kept : w'.db ≡ w₁.db =
        ap (λ (x : Result AppError Json × World St). x.1.db) (sym e₂)
        ∙ sweep-keeps done.2 w₁ w₂ swept in
      (
        subst (IsErased id) (sym kept) erased,
        subst (Spares id w.db) (sym kept) spared,
        done.1,
        ap (row id) kept ∙ reads,
        gone,
      )
