-- ===== src/History/Valid/Accounts.antt =====
-- src/db/: the statements on users, aliases, consent tokens and service sessions keep the
-- constraints.
use ovp_data_api.Base.{
  ℕ, Uuid, Text, Bool, true, false, inl, inr, Bool-cases, [], ◌∷◌, ◌++◌, All-delete,
  All-delete-false, All-map, All-append, All-update, any-delete_other, any-append_left, any-update,
  ◌∙◌, any, Unique-append, Unique-delete, Unique-update, ◌≡◌, refl, ap, arith, ok, err, Result,
  DateTime, ◌==◌, delete, update, leb, ◌^◌, ◌-◌, ◌&&◌,
}
use ovp_data_api.Error.{AppError}
use ovp_data_api.Ids.{PseudoId, pseudo_eq, is_valid_pseudo_id}
use ovp_data_api.Ids.Shape.{pseudo_eq_iff}
use ovp_data_api.Db.{Db, User, Participant, ConsentToken, session_exists}
use ovp_data_api.Db.ConsentTokens
use ovp_data_api.Db.DisplayNames
use ovp_data_api.Db.Participants
use ovp_data_api.Db.ServiceSessions
use ovp_data_api.Db.Users
use ovp_data_api.History.Evolve.{Steps, Moved}
use ovp_data_api.History.Laws.{seeded}
use ovp_data_api.History.Valid.{
  IsValid, same_user, same_alias, same_participant, same_pair, same_service, same_hash, same_token,
  HasSource,
}
use ovp_data_api.History.Valid.Audio.{guarded, reads, Refers-append}
use ovp_data_api.History.Valid.Tables.{
  valid, IsGuest, guests, users-IsValid, display_names-IsValid, participants-IsValid,
  service_sessions-IsValid, consent_tokens-IsValid,
}
use ovp_data_api.Routes.Sessions.{delete_participants, participant_ids}

pub session_participants : (id : Uuid) → Steps valid (delete_participants id)
unfolding delete_participants
session_participants id = record {
  step = λ now db v.
      let p = λ (r : Participant). r.session_id == id in
      let q = λ (t : ConsentToken). participant_ids id db t.participant_id in
      let first = record db { consent_tokens = delete q db.consent_tokens } in
      participants-IsValid (delete p db.participants) first
        (Unique-delete same_participant p db.participants v.participant_ids)
        (Unique-delete same_pair p db.participants v.participants)
        (All-delete _ p db.participants v.participant_sessions)
        (All-delete (IsGuest db.users) p db.participants (guests db v))
        (All-map _ _ (delete q db.consent_tokens)
          (λ t h. any-delete_other p (λ r. r.id == t.participant_id) db.participants h.1 h.0)
          (All-delete-false _ q db.consent_tokens v.token_participants))
        (consent_tokens-IsValid (delete q db.consent_tokens) db
          (Unique-delete same_token q db.consent_tokens v.tokens)
          (All-delete _ q db.consent_tokens v.token_sessions)
          (All-delete _ q db.consent_tokens v.token_participants)
          (All-delete _ q db.consent_tokens v.token_users) v);
}

-- A new user leaves the others.
user_added :
    (u : User) (db : Db)
    → any (λ x. same_user x u) db.users ≡ false
    → is_valid_pseudo_id u.pseudo_id.as_str ≡ true
    → IsValid db
    → IsValid (record db { users = db.users ++ u ∷ [] })
user_added u db h k v =
    users-IsValid _ db (Unique-append same_user db.users u h v.users)
      (All-append _ db.users (u ∷ []) v.user_pseudonyms (k, tt))
      (λ p m. any-append_left _ db.users (u ∷ []) m) v

-- What the seeding of a user leaves, where it succeeds.
abbrev Left : Db → Result AppError Db → Type 0
Left db (ok new) = IsValid db → IsValid new
Left db (err e) = Unit

seed_user-Left :
    (p : PseudoId) (now : DateTime) (db : Db) → Left db (Participants.seed_user p now db)
unfolding Participants.seed_user
seed_user-Left p now db = elim (Bool-cases (is_valid_pseudo_id p.as_str)) [
  | inl e ↦ elim (Bool-cases (any (Participants.is_user p) db.users)) [
    | inl k ↦ rw (e, k) (λ v. v)
    | inr k ↦ rw (e, k) (user_added _ db k e)
  ]
  | inr e ↦ rw e tt
]

moved :
    (db : Db) (r : Result AppError Db)
    → Left db r
    → Moved valid.rel db (elim r [ err e ↦ err e | ok new ↦ ok (tt, new) ])
moved db (ok new) h = h
moved db (err e) h = tt

pub participant_seed : (p : PseudoId) → Steps valid (seeded p)
participant_seed p = record { step = λ now db. moved db _ (seed_user-Left p now db) }

-- An update that leaves the pseudonym of the users that it meets.
users_updated :
    (q : User → Bool) (f : User → User) (db : Db)
    → ((u : User) → q u ≡ true → (f u).pseudo_id ≡ u.pseudo_id)
    → IsValid db
    → IsValid (record db { users = update q f db.users })
users_updated q f db keeps v =
    users-IsValid _ db
      (Unique-update same_user q f db.users (λ x y h. rw (keeps x h) refl)
        (λ x y h. rw (keeps y h) refl) v.users)
      (All-update _ q f db.users (λ u h k. rw (keeps u h) k) v.user_pseudonyms)
      (λ p m.
        any-update (λ u. pseudo_eq u.pseudo_id p) q f db.users
          (λ u h. ap (λ i. pseudo_eq i p) (keeps u h))
        ∙ m)
      v

user_insert_or :
    (f : User → User) (p : PseudoId) (b : Bool)
    → ((u : User) → Users.has_pseudo p u ≡ true → (f u).pseudo_id ≡ u.pseudo_id)
    → Steps valid (Users.insert_or f p b)
unfolding Users.insert_or
user_insert_or f p b keeps = record {
  step = λ now db. elim (Bool-cases (is_valid_pseudo_id p.as_str)) [
    | inl e ↦ elim (Bool-cases (any (Users.has_pseudo p) db.users)) [
      | inl k ↦ rw (e, k) (reads db _ _ (users_updated (Users.has_pseudo p) f db keeps))
      | inr k ↦ rw (e, k) (user_added _ db k e)
    ]
    | inr e ↦ rw e tt
  ];
}

pub user_upsert : (u : Users.UpsertUser) → Steps valid (Users.upsert u)
unfolding Users.upsert
user_upsert u =
    user_insert_or _ u.pseudo_id false
      (λ x h. ground (arith, pseudo_eq_iff x.pseudo_id u.pseudo_id))

pub user_admin : (p : PseudoId) (b : Bool) → Steps valid (Users.set_admin p b)
unfolding Users.set_admin
user_admin p b = user_insert_or _ p b (λ x h. refl)

pub alias_upsert :
    (p : PseudoId) (d : DisplayNames.UpsertDisplayName) → Steps valid (DisplayNames.upsert p d)
unfolding DisplayNames.upsert DisplayNames.insert_alias
alias_upsert p d = record {
  step = λ now db.
      let key = DisplayNames.of_alias p d.display_name in
      elim (Bool-cases (DisplayNames.is_source d.source)) [
        | inl a ↦
            elim (Bool-cases (any (λ x. key x && leb (2 ^ 31 - 1) x.seen_count) db.display_names)) [
              | inl e ↦ rw (a, e) tt
              | inr e ↦ elim (Bool-cases (any key db.display_names)) [
                | inl k ↦
                    rw (a, e, k)
                      (reads db _ _ λ v.
                        display_names-IsValid _ db
                          (Unique-update same_alias key (DisplayNames.seen_again now)
                            db.display_names (λ x y h. refl) (λ x y h. refl) v.display_names)
                          (All-update _ key (DisplayNames.seen_again now) db.display_names
                            (λ x h k. k) v.alias_users)
                          (All-update HasSource key (DisplayNames.seen_again now) db.display_names
                            (λ x h k. k) v.alias_sources)
                          v)
                | inr k ↦
                    rw (a, e, k)
                      (guarded (any (λ u. pseudo_eq u.pseudo_id p) db.users) _ _ db _ λ h v.
                        display_names-IsValid _ db
                          (Unique-append same_alias db.display_names _ k v.display_names)
                          (All-append _ db.display_names (DisplayNames.new_alias p d now ∷ [])
                            v.alias_users (h, tt))
                          (All-append HasSource db.display_names
                            (DisplayNames.new_alias p d now ∷ []) v.alias_sources (a, tt))
                          v)
              ]
            ]
        | inr a ↦ rw a tt
      ];
}

pub token_create : (t s r : Uuid) (p : PseudoId) → Steps valid (ConsentTokens.create t s r p)
unfolding ConsentTokens.create session_exists
token_create t s r p = record {
  step = λ now db. guarded (ConsentTokens.admits t s r p db) _ _ db _ λ h v.
      consent_tokens-IsValid _ db
        (Unique-append same_token db.consent_tokens _ (ground arith) v.tokens)
        (Refers-append (λ x. x.session_id) db.sessions db.consent_tokens _ (ground arith)
          v.token_sessions)
        (All-append _ db.consent_tokens (ConsentTokens.new_token t s r p now ∷ [])
          v.token_participants (ground arith, tt))
        (All-append _ db.consent_tokens (ConsentTokens.new_token t s r p now ∷ []) v.token_users
          (ground arith, tt))
        v;
}

services_seen :
    (hash : Text) (now : ℕ) (db : Db)
    → IsValid db
    → IsValid (record db {
      service_sessions =
          update (ServiceSessions.has_hash hash) (ServiceSessions.seen now) db.service_sessions;
    })
services_seen hash now db v =
    let q = ServiceSessions.has_hash hash in
    let f = ServiceSessions.seen now in
    service_sessions-IsValid _ db
      (Unique-update same_service q f db.service_sessions (λ x y h. refl) (λ x y h. refl)
        v.service_ids)
      (Unique-update same_hash q f db.service_sessions (λ x y h. refl) (λ x y h. refl)
        v.service_hashes)
      v

pub service_insert :
    (i : Uuid) (name hash : Text) → Steps valid (ServiceSessions.insert i name hash)
unfolding ServiceSessions.insert
service_insert i name hash = record {
  step = λ now db. elim (Bool-cases (any (ServiceSessions.has_hash hash) db.service_sessions)) [
    | inl k ↦ rw k (reads db _ _ (services_seen hash now db))
    | inr k ↦ elim (Bool-cases (any (λ s. s.id == i) db.service_sessions)) [
      | inl e ↦ rw (k, e) tt
      | inr e ↦
          rw (k, e)
            (λ v.
              service_sessions-IsValid _ db
                (Unique-append same_service db.service_sessions _ e v.service_ids)
                (Unique-append same_hash db.service_sessions _ k v.service_hashes) v)
    ]
  ];
}

pub service_touch : (hash : Text) → Steps valid (ServiceSessions.touch hash)
unfolding ServiceSessions.touch
service_touch hash = record { step = λ now db. services_seen hash now db }

pub service_reap : (window : ℕ) → Steps valid (ServiceSessions.reap_stale window)
unfolding ServiceSessions.reap_stale
service_reap window = record {
  step = λ now db v.
      let p = ServiceSessions.is_stale window now in
      service_sessions-IsValid _ db (Unique-delete same_service p db.service_sessions v.service_ids)
        (Unique-delete same_hash p db.service_sessions v.service_hashes) v;
}
