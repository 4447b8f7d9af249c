-- ===== src/Routes/Sessions/Refusal.antt =====
-- src/routes/sessions.rs: when a PATCH is refused for its transition.
use ovp_data_api.Base.{
  Text, Uuid, Bool, true, false, Bool-cases, Result, ok, err, List, [], ◌∷◌, Option, none, some,
  inl, inr, ◌≡◌, ◌↔◌, ◌⊎◌, sym, ap, ◌∙◌, refl, arith, select, is_some, ◌||◌, map, update,
}
use ovp_data_api.Error.{AppError, not_found, illegal_transition}
use ovp_data_api.State.{SessionStatus, can_transition, as_str}
use ovp_data_api.App.{AppState, World, Handler, bound, stored, ended, exec, audit, transaction}
use ovp_data_api.Db.{Db, Session, fetch_one, fetch_or, reading}
use ovp_data_api.Db.Sessions
use ovp_data_api.Db.AuditLog
use ovp_data_api.Db.AuditLog.{Entry}
use ovp_data_api.Db.Sessions.Rows.{row}
use ovp_data_api.Routes.Sessions.{PatchSession, patch, patch_tx, patch_status, patch_rest, announce}

abbrev is_illegal : AppError → Bool
is_illegal (illegal_transition a b) = true
is_illegal _ = false

-- Whether a run was refused for a transition.
abbrev refuses : {A St : Type 0} → Result AppError A × World St → Bool
refuses (ok a, w) = false
refuses (err e, w) = is_illegal e

missing :
    {A : Type 0} (xs : List A) (e : AppError) → fetch_or not_found xs ≡ err e → is_illegal e ≡ false
missing [] e h = ground arith
missing (x ∷ xs) e h = cc

-- The status asked for is none to which the session read has an accepted transition; `a` and `b` are
-- the names of the two.
abbrev pub IsIllegal : Result AppError Session → Option SessionStatus → Text → Text → Type 0
IsIllegal r asked a b =
    (s : Session) × (t : SessionStatus) × (r ≡ ok s)
    × (asked ≡ some t)
    × (can_transition s.status t ≡ false)
    × (a ≡ as_str s.status)
    × (b ≡ as_str t)

module _ {St : Type 0} where
  refuses-err :
      {A : Type 0} (x : Result AppError A × World St) (a b : Text)
      → x.0 ≡ err (illegal_transition a b)
      → refuses x ≡ true
  refuses-err (ok c, w) a b h = cc
  refuses-err (err e, w) a b h =
      let same : e ≡ illegal_transition a b = ground arith in ap is_illegal same

  bound-refuses :
      {A B : Type 0} (x : Result AppError A × World St) (f : A → Handler St B)
      → refuses x ≡ false
      → ((a : A) (w : World St) → refuses (f a w) ≡ false)
      → refuses (bound x f) ≡ false
  bound-refuses (ok a, w) f h k = k a w
  bound-refuses (err e, w) f h k = h

  ended-refuses :
      {A : Type 0} (before : Db) (x : Result AppError A × World St)
      → refuses x ≡ false
      → refuses (ended before x) ≡ false
  ended-refuses before (ok a, w) h = refl
  ended-refuses before (err e, w) h = h

  fetched-refuses :
      {A : Type 0} (db : Db) (xs : List A) (w : World St)
      → refuses (stored (reading db (fetch_one xs)) w) ≡ false
  fetched-refuses db [] w = refl
  fetched-refuses db (x ∷ xs) w = refl

  audit-refuses : (e : Entry) (w : World St) → refuses (audit e w) ≡ false
  unfolding AuditLog.append
  audit-refuses e w = elim (Bool-cases (AuditLog.admits (w.uuids w.drawn) e w.db.audit_log)) [
    | inl k ↦ rw k refl
    | inr k ↦ rw k refl
  ]

module _ {St : Type 0} (state : AppState St) where
  status-refuses :
      (id : Uuid) (t : SessionStatus) (w : World St)
      → refuses (exec (Sessions.update_status id t) w) ≡ false
  unfolding Sessions.update_status Sessions.update_row
  status-refuses id t w =
      fetched-refuses
        (record w.db {
          sessions = update (Sessions.has_id id) (Sessions.with_status t w.now) w.db.sessions;
        })
        (map (Sessions.with_status t w.now) (select (Sessions.has_id id) w.db.sessions)) w

  rest-refuses :
      (id : Uuid) (u : Session) (body : PatchSession) (w : World St)
      → refuses (patch_rest state id u body w) ≡ false
  unfolding patch_rest Sessions.patch_fields Sessions.update_row
  rest-refuses id u body w =
      elim (Bool-cases (is_some body.ended_at || is_some body.participant_count)) [
        | inl changes ↦ rw changes (
            fetched-refuses
              (record w.db {
                sessions =
                    update (Sessions.has_id id)
                      (Sessions.with_fields body.ended_at body.participant_count) w.db.sessions;
              })
              (map (Sessions.with_fields body.ended_at body.participant_count)
                (select (Sessions.has_id id) w.db.sessions))
              w)
        | inr same ↦ rw same refl
      ]

  announce-refuses :
      (id : Uuid) (u : Session) (m : Option (SessionStatus × SessionStatus)) (w : World St)
      → refuses (announce state id u m w) ≡ false
  unfolding announce
  announce-refuses id u none w = refl
  announce-refuses id u (some (old, new)) w = refl

  gate-refuses :
      (id : Uuid) (s : Session) (asked : Option SessionStatus) (w : World St)
      → ((t : SessionStatus) → asked ≡ some t → can_transition s.status t ≡ true)
      → refuses (patch_status state id s asked w) ≡ false
  unfolding patch_status
  gate-refuses id s none w legal = refl
  gate-refuses id s (some t) w legal = rw (legal t refl) (
      bound-refuses (exec (Sessions.update_status id t) w) _ (status-refuses id t w) (λ v w₁. refl))

  -- Without an illegal transition asked for, a PATCH is not refused for one.
  patch-legal :
      (service : Text) (id : Uuid) (body : PatchSession) (w : World St)
      → ((s : Session) (t : SessionStatus)
          → row id w.db ≡ ok s
          → body.status ≡ some t
          → can_transition s.status t ≡ true)
      → refuses (patch state service id body w) ≡ false
  unfolding patch patch_tx Sessions.get
  patch-legal service id body w legal =
      bound-refuses (transaction (patch_tx state service id body) w) _
        (ended-refuses w.db (patch_tx state service id body w) (go (row id w.db) refl))
        λ done w₁.
          bound-refuses (announce state id done.0 done.1 w₁) _
            (announce-refuses id done.0 done.1 w₁) (λ _ w₂. refl)
    where
      go :
          (r : Result AppError Session)
          → row id w.db ≡ r
          → refuses (patch_tx state service id body w) ≡ false
      go (err e) found = rw found (missing (select (Sessions.has_id id) w.db.sessions) e found)
      go (ok s) found = rw found (
          bound-refuses (patch_status state id s body.status w) _
            (gate-refuses id s body.status w (λ t asks. legal s t found asks))
            λ moved w₁.
              bound-refuses (patch_rest state id moved.0 body w₁) _
                (rest-refuses id moved.0 body w₁)
                λ u w₂. bound-refuses (audit _ w₂) _ (audit-refuses _ w₂) (λ _ w₃. refl))

  refused :
      (service : Text) (id : Uuid) (body : PatchSession) (w : World St) (s : Session)
      (t : SessionStatus)
      → row id w.db ≡ ok s
      → body.status ≡ some t
      → can_transition s.status t ≡ false
      → patch state service id body w ≡ (err (illegal_transition (as_str s.status) (as_str t)), w)
  unfolding patch patch_tx patch_status Sessions.get
  refused service id body w s t found asks no_move = rw (found, asks, no_move) refl

  -- The session and the status asked for, where there are both and no accepted transition.
  asked-cases :
      (r : Result AppError Session) (asked : Option SessionStatus)
      → ((s : Session) × (t : SessionStatus) × (r ≡ ok s)
          × (asked ≡ some t)
          × (can_transition s.status t ≡ false))
        ⊎ ((s : Session) (t : SessionStatus)
            → r ≡ ok s
            → asked ≡ some t
            → can_transition s.status t ≡ true)
  asked-cases (err e) asked = inr (λ s t h k. cc)
  asked-cases (ok s) none = inr (λ s' t h k. cc)
  asked-cases (ok s) (some t) = elim (Bool-cases (can_transition s.status t)) [
    | inl yes_move ↦ inr (λ s' t' h k. ground arith)
    | inr no_move ↦ inl (s, t, refl, refl, no_move)
  ]

  refused_whole :
      (service : Text) (id : Uuid) (body : PatchSession) (w : World St) (a b : Text)
      → IsIllegal (row id w.db) body.status a b
      → patch state service id body w ≡ (err (illegal_transition a b), w)
  refused_whole service id body w a b (s, t, found, asks, no_move, from, to) =
      refused service id body w s t found asks no_move ∙ rw (from, to) refl

  patch-IsIllegal :
      (service : Text) (id : Uuid) (body : PatchSession) (w : World St) (a b : Text)
      → (patch state service id body w).0 ≡ err (illegal_transition a b)
      → IsIllegal (row id w.db) body.status a b
  patch-IsIllegal service id body w a b h = elim (asked-cases (row id w.db) body.status) [
    | inl (s, t, found, asks, no_move) ↦
        let is = refused service id body w s t found asks no_move in
        let same : Path (Result AppError Session)
            (err (illegal_transition (as_str s.status) (as_str t))) (err (illegal_transition a b)) =
          sym (ap (λ (x : Result AppError Session × World St). x.0) is) ∙ h in
        (s, t, found, asks, no_move, ground arith, ground arith)
    | inr legal ↦
        let never = patch-legal service id body w legal in
        let refusing = refuses-err (patch state service id body w) a b h in cc
  ]

  -- A PATCH is refused for a transition exactly where the session is there and the status that it
  -- asks for is none to which the session has an accepted transition, and it then names the two and
  -- changes nothing: a missing session, a failure of the database or anything else that it asks for
  -- is never answered so.
  pub patch-refused :
      (service : Text) (id : Uuid) (body : PatchSession) (w : World St) (a b : Text)
      → (((patch state service id body w).0 ≡ err (illegal_transition a b))
          ↔ IsIllegal (row id w.db) body.status a b)
        × (((patch state service id body w).0 ≡ err (illegal_transition a b))
            ↔ (patch state service id body w ≡ (err (illegal_transition a b), w)))
  patch-refused service id body w a b =
      let done = refused_whole service id body w a b in
      let is = patch-IsIllegal service id body w a b in
      (
        (is, λ k. ap (λ (x : Result AppError Session × World St). x.0) (done k)),
        (λ h. done (is h), ap (λ (x : Result AppError Session × World St). x.0)),
      )
