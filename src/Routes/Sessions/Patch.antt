-- ===== src/Routes/Sessions/Patch.antt =====
-- src/routes/sessions.rs: which changes of status a PATCH makes.
use ovp_data_api.Base.{
  Text, text, Uuid, Bool-cases, true, ◌||◌, is_some, if◌then◌else◌, inl, inr, Option, none, some,
  ok, ◌≡◌, refl, sym, ap, ◌∙◌, arith, select, obj, member, str, end,
}
use ovp_data_api.Error.{not_found}
use ovp_data_api.State.{SessionStatus, can_transition, as_str, status_eq}
use ovp_data_api.App.Inversion.{>>=-ok, exec-ok, get-reads, transaction-ok, audit-keeps}
use ovp_data_api.App.{AppState, World, pure, exec, stored, audit, transaction, ◌>>=◌, ◌>>◌}
use ovp_data_api.Db.{Session, fetch_or}
use ovp_data_api.Db.Sessions
use ovp_data_api.Db.AuditLog.{Entry}
use ovp_data_api.Db.Sessions.{has_id, with_status, with_fields}
use ovp_data_api.Db.Sessions.Rows.{row, update_row-ok}
use ovp_data_api.Routes.Sessions.{
  PatchSession, session_entry, time_or_null, patch_status, patch_rest, announce, patch_tx, patch,
}

abbrev Move : Type 0
Move = Option (SessionStatus × SessionStatus)

-- What a PATCH may do to the status: nothing, or a legal transition to what was asked.
abbrev pub Moves : Option SessionStatus → SessionStatus → SessionStatus → Type 0
Moves none s u = u ≡ s
Moves (some t) s u = (can_transition s t ≡ true) × (u ≡ t)

moved_to :
    (req : Option SessionStatus) (s t u : SessionStatus) → u ≡ t → Moves req s t → Moves req s u
moved_to none s t u same gate = same ∙ gate
moved_to (some r) s t u same gate = (gate.0, same ∙ gate.1)

module _ {St : Type 0} (state : AppState St) where
  exec-updated :
      (id : Uuid) (f : Session → Session) (w w' : World St) (s v : Session)
      → ((x : Session) → (f x).id ≡ x.id)
      → row id w.db ≡ ok s
      → stored (Sessions.update_row id f w.db) w ≡ (ok v, w')
      → (row id w'.db ≡ ok v) × (v ≡ f s)
  exec-updated id f w w' s v keeps found e =
      let (db, done, left) = exec-ok (Sessions.update_row id f w.db) w v w' e in
      let (s', was, is, reads) = update_row-ok id f w.db v db keeps done in
      let one : s' ≡ s = ground arith in
      (ap (λ (x : World St). row id x.db) left ∙ reads, is ∙ ap f one)

  abbrev move : SessionStatus → SessionStatus → Move
  move s t = if status_eq s t then none else some (s, t)

  patch_status-ok :
      (id : Uuid) (s : Session) (req : Option SessionStatus) (w w' : World St) (u : Session)
      (m : Move)
      → row id w.db ≡ ok s
      → patch_status state id s req w ≡ (ok (u, m), w')
      → (row id w'.db ≡ ok u) × Moves req s.status u.status
  unfolding patch_status Sessions.update_status with_status
  patch_status-ok id s none w w' u m found e =
      let left : w ≡ w' = ground arith in
      let answer : s ≡ u = ground arith in
      (
        ap (λ (v : World St). row id v.db) (sym left) ∙ (found ∙ ap ok answer),
        ap (λ (v : Session). v.status) (sym answer),
      )
  patch_status-ok id s (some t) w w' u m found e = elim (Bool-cases (can_transition s.status t)) [
    | inl legal ↦
        let same : patch_status state id s (some t) w
            ≡ (exec (Sessions.update_status id t) >>= λ v. pure (v, move s.status t)) w =
          rw legal refl in
        let (v, w₁, upd, e₁) =
          >>=-ok (exec (Sessions.update_status id t) w) (λ (v : Session). pure (v, move s.status t))
            (u, m) w' (sym same ∙ e) in
        let (reads, is) = exec-updated id (with_status t w.now) w w₁ s v (λ x. refl) found upd in
        let answer : v ≡ u = ground arith in
        let last : w₁ ≡ w' = ground arith in
        (
          ap (λ (x : World St). row id x.db) (sym last) ∙ (reads ∙ ap ok answer),
          (legal, ap (λ (x : Session). x.status) (sym answer ∙ is)),
        )
    | inr illegal ↦ ground arith
  ]

  patch_rest-ok :
      (id : Uuid) (u : Session) (body : PatchSession) (w w' : World St) (v : Session)
      → row id w.db ≡ ok u
      → patch_rest state id u body w ≡ (ok v, w')
      → (row id w'.db ≡ ok v) × (v.status ≡ u.status)
  unfolding patch_rest Sessions.patch_fields with_fields
  patch_rest-ok id u body w w' v found e =
      elim (Bool-cases (is_some body.ended_at || is_some body.participant_count)) [
        | inl changes ↦
            let same : patch_rest state id u body w
                ≡ exec (Sessions.patch_fields id body.ended_at body.participant_count) w =
              rw changes refl in
            let (reads, is) =
              exec-updated id (with_fields body.ended_at body.participant_count) w w' u v
                (λ x. refl) found (sym same ∙ e) in
            (reads, ap (λ (x : Session). x.status) is)
        | inr same ↦
            let left : w ≡ w' = ground arith in
            let answer : u ≡ v = ground arith in
            (
              ap (λ (x : World St). row id x.db) (sym left) ∙ (found ∙ ap ok answer),
              ap (λ (x : Session). x.status) (sym answer),
            )
      ]

  announce-keeps :
      (id : Uuid) (u : Session) (m : Move) (w w' : World St)
      → announce state id u m w ≡ (ok tt, w')
      → w'.db ≡ w.db
  unfolding announce
  announce-keeps id u none w w' e = ground arith
  announce-keeps id u (some (old, new)) w w' e = ground arith

  patch_tx-ok :
      (service : Text) (id : Uuid) (body : PatchSession) (w w' : World St) (v : Session) (m : Move)
      → patch_tx state service id body w ≡ (ok (v, m), w')
      → (s : Session) × (row id w.db ≡ ok s)
        × Moves body.status s.status v.status
        × (row id w'.db ≡ ok v)
  unfolding patch_tx
  patch_tx-ok service id body w w' v m e =
      let (s, w₁, got, e₁) = >>=-ok (exec (Sessions.get id) w) _ (v, m) w' e in
      let (found, same₁) = get-reads id s w w₁ got in
      let found₁ : row id w₁.db ≡ ok s = ap (λ (x : World St). row id x.db) same₁ ∙ found in
      let (moved, w₂, upd, e₂) = >>=-ok (patch_status state id s body.status w₁) _ (v, m) w' e₁ in
      let (found₂, gate) = patch_status-ok id s body.status w₁ w₂ moved.0 moved.1 found₁ upd in
      let (u, w₃, rest, e₃) = >>=-ok (patch_rest state id moved.0 body w₂) _ (v, m) w' e₂ in
      let (found₃, kept) = patch_rest-ok id moved.0 body w₂ w₃ u found₂ rest in
      let (_, w₄, logged, e₄) =
        >>=-ok (audit (entry u) w₃) (λ (_ : Unit {0}). pure (u, moved.1)) (v, m) w' e₃ in
      let answer : u ≡ v = ground arith in
      let last : w₄ ≡ w' = ground arith in
      let rows : w'.db.sessions ≡ w₃.db.sessions =
        ap (λ (x : World St). x.db.sessions) (sym last) ∙ (audit-keeps (entry u) w₃ w₄ logged).0 in
      (
        s,
        found,
        moved_to body.status s.status moved.0.status v.status
            (ap (λ (x : Session). x.status) (sym answer) ∙ kept) gate,
        ap (λ ss. fetch_or not_found (select (has_id id) ss)) rows ∙ (found₃ ∙ ap ok answer),
      )
    where
      entry : Session → Entry
      entry u = session_entry state service id (text "patched") (
          some (
            obj (
              member (text "status") (str (as_str u.status))
                (member (text "ended_at") (time_or_null state.datetime_to_json u.ended_at) end))))

  -- A PATCH that succeeds found the session; it leaves its status as it is when none is asked for,
  -- and otherwise moves it by an accepted transition to the status asked for; and its answer is the
  -- session as the next read finds it.
  pub patch-Moves :
      (service : Text) (id : Uuid) (body : PatchSession) (w w' : World St) (v : Session)
      → patch state service id body w ≡ (ok v, w')
      → (s : Session) × (row id w.db ≡ ok s)
        × Moves body.status s.status v.status
        × (row id w'.db ≡ ok v)
  unfolding patch
  patch-Moves service id body w w' v e =
      let (done, w₁, ran, e₁) =
        >>=-ok (transaction (patch_tx state service id body) w)
          (λ (x : Session × Move). announce state id x.0 x.1 >> pure x.0) v w' e in
      let (s, found, gate, reads) =
        patch_tx-ok service id body w w₁ done.0 done.1
          (transaction-ok w.db (patch_tx state service id body w) done w₁ ran) in
      let (_, w₂, told, e₂) =
        >>=-ok (announce state id done.0 done.1 w₁) (λ (_ : Unit {0}). pure done.0) v w' e₁ in
      let answer : done.0 ≡ v = ground arith in
      let last : w' ≡ w₂ = ground arith in
      let kept : w'.db ≡ w₁.db =
        ap (λ (x : World St). x.db) last ∙ announce-keeps id done.0 done.1 w₁ w₂ told in
      (
        s,
        found,
        moved_to body.status s.status done.0.status v.status
            (ap (λ (x : Session). x.status) (sym answer)) gate,
        ap (row id) kept ∙ (reads ∙ ap ok answer),
      )
