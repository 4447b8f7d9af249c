-- ===== src/History/Valid/People.antt =====
-- src/db/: the statements on sessions, users, participants, tokens and service sessions keep the
-- constraints.
use ovp_data_api.Base.{
  ℤ, Uuid, DateTime, Bool, inl, inr, Bool-cases, Option, [], ◌∷◌, All-append, All-delete,
  All-update, All-map, any-append_left, any, any-update, Unique-append, Unique-delete,
  Unique-update, ◌≡◌, refl, ap, ◌∙◌, arith, Json, ◌==◌, delete, update,
}
use ovp_data_api.State.{SessionStatus}
use ovp_data_api.Ids.{PseudoId, ETag}
use ovp_data_api.Db.{Db, Session, Participant, MetadataBlob, session_exists}
use ovp_data_api.Db.Metadata
use ovp_data_api.Db.Participants
use ovp_data_api.Db.Sessions
use ovp_data_api.History.Evolve.{Steps}
use ovp_data_api.History.Valid.{
  IsValid, same_session, same_participant, same_pair, same_blob, HasScope,
}
use ovp_data_api.History.Valid.Audio.{guarded, reads, Refers-append}
use ovp_data_api.History.Valid.Tables.{
  valid, IsGuest, guests, participants-IsValid, metadata-IsValid, sessions-IsValid,
}
use ovp_data_api.Routes.Sessions.{delete_metadata}

pub session_create : (i : Sessions.CreateSession) → Steps valid (Sessions.create i)
unfolding Sessions.create session_exists
session_create i = record {
  step = λ now db. elim (Bool-cases (any (λ s. s.id == i.id) db.sessions)) [
    | inl e ↦ rw (session_exists, e) tt
    | inr e ↦
        rw (session_exists, e)
          λ v.
            sessions-IsValid (Sessions.created i now ∷ db.sessions) db (λ id h. ground arith)
              (e, v.sessions) v
  ];
}

session_update :
    (id : Uuid) (f : Session → Session) (db : Db)
    → ((s : Session) → (f s).id ≡ s.id)
    → IsValid db
    → IsValid (record db { sessions = update (Sessions.has_id id) f db.sessions })
session_update id f db keeps v =
    let q = Sessions.has_id id in
    sessions-IsValid (update q f db.sessions) db
      (λ i h. any-update (λ s. s.id == i) q f db.sessions (λ s k. rw (keeps s) refl) ∙ h)
      (Unique-update same_session q f db.sessions (λ x y h. rw (keeps x) refl)
        (λ x y h. rw (keeps y) refl) v.sessions)
      v

pub session_status :
    (id : Uuid) (status : SessionStatus) → Steps valid (Sessions.update_status id status)
unfolding Sessions.update_status
session_status id status = record {
  step =
      λ now db. reads db _ _ (session_update id (Sessions.with_status status now) db (λ s. refl));
}

pub session_fields :
    (id : Uuid) (e : Option (Option DateTime)) (n : Option (Option ℤ))
    → Steps valid (Sessions.patch_fields id e n)
unfolding Sessions.patch_fields
session_fields id e n = record {
  step = λ now db. reads db _ _ (session_update id (Sessions.with_fields e n) db (λ s. refl));
}

pub session_resume : (id : Uuid) → Steps valid (Sessions.resume_from_abandoned id)
unfolding Sessions.resume_from_abandoned
session_resume id = record {
  step = λ now db. reads db _ _ (session_update id Sessions.resumed db (λ s. refl));
}

pub session_metadata : (id : Uuid) → Steps valid (delete_metadata id)
unfolding delete_metadata
session_metadata id = record {
  step = λ now db v.
      let p = λ (m : MetadataBlob). m.session_id == id in
      metadata-IsValid (delete p db.metadata) db (Unique-delete same_blob p db.metadata v.metadata)
        (All-delete _ p db.metadata v.metadata_sessions) v;
}

pub metadata_upsert : (id : Uuid) (j : Json) (etag : ETag) → Steps valid (Metadata.upsert id j etag)
unfolding Metadata.upsert session_exists
metadata_upsert id j etag = record {
  step = λ now db. elim (Bool-cases (any (Metadata.of_session id) db.metadata)) [
    | inl e ↦ rw e λ v.
        let q = Metadata.of_session id in
        let row : MetadataBlob = record {
          session_id = id;
          blob = j;
          etag = etag;
          updated_at = now;
        } in
        metadata-IsValid _ db
          (Unique-update same_blob q (λ _. row) db.metadata (λ x y h. ground arith)
            (λ x y h. ground arith) v.metadata)
          (All-update _ q (λ _. row) db.metadata (λ x h k. ground arith) v.metadata_sessions) v
    | inr e ↦ rw e (
        guarded (session_exists id db) _ _ db _ λ h v.
          metadata-IsValid _ db (Unique-append same_blob db.metadata _ e v.metadata)
            (Refers-append (λ m. m.session_id) db.sessions db.metadata _ h v.metadata_sessions) v)
  ];
}

with_participants :
    (q : Participant → Bool) (f : Participant → Participant) (db : Db)
    → ((p : Participant)
        → ((f p).id ≡ p.id) × ((f p).session_id ≡ p.session_id) × ((f p).pseudo_id ≡ p.pseudo_id))
    → ((p : Participant) → HasScope p.consent_scope → HasScope (f p).consent_scope)
    → IsValid db
    → IsValid (record db { participants = update q f db.participants })
with_participants q f db keeps scoped v =
    participants-IsValid _ db
      (Unique-update same_participant q f db.participants (λ x y h. rw (keeps x).0 refl)
        (λ x y h. rw (keeps y).0 refl) v.participant_ids)
      (Unique-update same_pair q f db.participants (λ x y h. rw ((keeps x).1, (keeps x).2) refl)
        (λ x y h. rw ((keeps y).1, (keeps y).2) refl) v.participants)
      (All-update _ q f db.participants (λ x h k. rw (keeps x).1 k) v.participant_sessions)
      (All-update (IsGuest db.users) q f db.participants
        (λ x h k. (rw (keeps x).2 k.0, rw (keeps x).2 k.1, scoped x k.2)) (guests db v))
      (All-map _ _ db.consent_tokens
        (λ t h.
          any-update (λ p. p.id == t.participant_id) q f db.participants
            (λ x k. ap (λ i. i == t.participant_id) (keeps x).0)
          ∙ h)
        v.token_participants)
      v

pub participant_upsert :
    (i id : Uuid) (a : Participants.AddParticipant) → Steps valid (Participants.upsert i id a)
unfolding Participants.upsert session_exists
participant_upsert i id a = record {
  step = λ now db. elim (Bool-cases (any (Participants.of_pair id a.pseudo_id) db.participants)) [
    | inl e ↦ rw e (reads db _ _ (with_participants _ _ db (λ p. (refl, refl, refl)) (λ p h. h)))
    | inr e ↦ rw e (
        guarded (Participants.admits i id a.pseudo_id db) _ _ db _ λ h v.
          participants-IsValid _ db
            (Unique-append same_participant db.participants _ (ground arith) v.participant_ids)
            (Unique-append same_pair db.participants _ e v.participants)
            (Refers-append (λ p. p.session_id) db.sessions db.participants _ (ground arith)
              v.participant_sessions)
            (All-append (IsGuest db.users) db.participants (_ ∷ []) (guests db v)
              ((ground arith, ground arith, tt), tt))
            (All-map _ _ db.consent_tokens (λ t k. any-append_left _ db.participants _ k)
              v.token_participants)
            v)
  ];
}

pub participant_consent :
    (id : Uuid) (c : Participants.UpdateConsent) → Steps valid (Participants.update_consent id c)
unfolding Participants.update_consent
participant_consent id c = record {
  step = λ now db. elim (Bool-cases (Participants.is_scope c.consent_scope)) [
    | inl e ↦ rw e (reads db _ _ (with_participants _ _ db (λ p. (refl, refl, refl)) (λ p h. e)))
    | inr e ↦ rw e tt
  ];
}

pub participant_license :
    (id : Uuid) (l : Participants.UpdateLicense) → Steps valid (Participants.update_license id l)
unfolding Participants.update_license
participant_license id l = record {
  step = λ now db. reads db _ _ (with_participants _ _ db (λ p. (refl, refl, refl)) (λ p h. h));
}

pub participant_wiped : (id : Uuid) (p : PseudoId) → Steps valid (Participants.mark_wiped id p)
unfolding Participants.mark_wiped
participant_wiped id p = record {
  step = λ now db. with_participants _ _ db (λ p. (refl, refl, refl)) (λ p h. h);
}
