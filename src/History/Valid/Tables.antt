-- ===== src/History/Valid/Tables.antt =====
-- A change of one table keeps the constraints of the others.
use ovp_data_api.Base.{Uuid, ◌==◌, List, [], ◌∷◌, All, All-map, any, Unique, ◌≡◌, true}
use ovp_data_api.Ids.{PseudoId}
use ovp_data_api.Db.{
  Db, User, DisplayName, Session, Participant, MetadataBlob, ChunkRow, StoredRow, MuteRange,
  ServiceSession, ConsentToken, AuditRow,
}
use ovp_data_api.Db.Uniform.{
  Table, session_segments, session_beats, session_scenes, rows_of, with_rows,
}
use ovp_data_api.History.Evolve.{Evolution}
use ovp_data_api.Db.Chunks.Listing.{same_number}
use ovp_data_api.History.Valid.{
  IsValid, IsValidTable, Refers, OfUser, OfParticipant, IsPseudonym, IsStreamId, same_user,
  same_alias, same_session, same_participant, same_pair, same_blob, same_chunk, same_range,
  same_service, same_hash, same_token, same_log, HasSource, HasScope,
}

abbrev pub valid : Evolution
valid = record {
  rel = λ a b. IsValid a → IsValid b;
  stays = λ db v. v;
  joins = λ a b c f g v. g (f v);
}

pub users-IsValid :
    (xs : List User) (db : Db)
    → Unique same_user xs
    → All (λ u. IsPseudonym u.pseudo_id) xs
    → ((p : PseudoId) → OfUser db.users p → OfUser xs p)
    → IsValid db
    → IsValid (record db { users = xs })
users-IsValid xs db u p keeps v =
    let names : All (λ d. OfUser xs d.pseudo_id) db.display_names =
      All-map _ _ db.display_names (λ d h. keeps d.pseudo_id h) v.alias_users in
    let joined : All (λ p. OfUser xs p.pseudo_id) db.participants =
      All-map _ _ db.participants (λ p h. keeps p.pseudo_id h) v.participant_users in
    let named : All (λ t. OfUser xs t.pseudo_id) db.consent_tokens =
      All-map _ _ db.consent_tokens (λ t h. keeps t.pseudo_id h) v.token_users in
    search

pub display_names-IsValid :
    (xs : List DisplayName) (db : Db)
    → Unique same_alias xs
    → All (λ d. OfUser db.users d.pseudo_id) xs
    → All HasSource xs
    → IsValid db
    → IsValid (record db { display_names = xs })
display_names-IsValid xs db u d c v = search

-- What the table of participants asks of a row beside its keys and its session.
abbrev pub IsGuest : List User → Participant → Type 0
IsGuest users p = OfUser users p.pseudo_id × IsPseudonym p.pseudo_id × HasScope p.consent_scope

pub guests : (db : Db) → IsValid db → All (IsGuest db.users) db.participants
guests db v =
    zipped db.participants v.participant_users v.participant_pseudonyms v.participant_scopes
  where
    zipped :
        (ps : List Participant)
        → All (λ p. OfUser db.users p.pseudo_id) ps
        → All (λ p. IsPseudonym p.pseudo_id) ps
        → All (λ p. HasScope p.consent_scope) ps
        → All (IsGuest db.users) ps
    zipped [] a b c = tt
    zipped (p ∷ ps) a b c = ((a.0, b.0, c.0), zipped ps a.1 b.1 c.1)

pub participants-IsValid :
    (xs : List Participant) (db : Db)
    → Unique same_participant xs
    → Unique same_pair xs
    → Refers (λ p. p.session_id) db.sessions xs
    → All (IsGuest db.users) xs
    → All (OfParticipant xs) db.consent_tokens
    → IsValid db
    → IsValid (record db { participants = xs })
participants-IsValid xs db u p r g t v =
    let users = All-map _ (λ p. OfUser db.users p.pseudo_id) xs (λ p h. h.0) g in
    let pseudonyms = All-map _ (λ p. IsPseudonym p.pseudo_id) xs (λ p h. h.1) g in
    let scopes = All-map _ (λ p. HasScope p.consent_scope) xs (λ p h. h.2) g in search

pub metadata-IsValid :
    (xs : List MetadataBlob) (db : Db)
    → Unique same_blob xs
    → Refers (λ m. m.session_id) db.sessions xs
    → IsValid db
    → IsValid (record db { metadata = xs })
metadata-IsValid xs db u r v = search

pub chunks-IsValid :
    (xs : List ChunkRow) (db : Db)
    → Unique same_number xs
    → Unique same_chunk xs
    → Refers (λ c. c.session_id) db.sessions xs
    → All IsStreamId xs
    → IsValid db
    → IsValid (record db { chunks = xs })
chunks-IsValid xs db n c r p v = search

pub mute_ranges-IsValid :
    (xs : List MuteRange) (db : Db)
    → Unique same_range xs
    → Refers (λ m. m.session_id) db.sessions xs
    → All (λ m. IsPseudonym m.pseudo_id) xs
    → IsValid db
    → IsValid (record db { mute_ranges = xs })
mute_ranges-IsValid xs db u r p v = search

pub service_sessions-IsValid :
    (xs : List ServiceSession) (db : Db)
    → Unique same_service xs
    → Unique same_hash xs
    → IsValid db
    → IsValid (record db { service_sessions = xs })
service_sessions-IsValid xs db u h v = search

pub consent_tokens-IsValid :
    (xs : List ConsentToken) (db : Db)
    → Unique same_token xs
    → Refers (λ t. t.session_id) db.sessions xs
    → All (OfParticipant db.participants) xs
    → All (λ t. OfUser db.users t.pseudo_id) xs
    → IsValid db
    → IsValid (record db { consent_tokens = xs })
consent_tokens-IsValid xs db u r t p v = search

pub audit_log-IsValid :
    (xs : List AuditRow) (db : Db)
    → Unique same_log xs
    → IsValid db
    → IsValid (record db { audit_log = xs })
audit_log-IsValid xs db u v = search

pub table-IsValid : (t : Table) (db : Db) → IsValid db → IsValidTable db.sessions (rows_of t db)
table-IsValid session_segments db v = v.segments
table-IsValid session_beats db v = v.beats
table-IsValid session_scenes db v = v.scenes

pub rows-IsValid :
    (t : Table) (xs : List StoredRow) (db : Db)
    → IsValidTable db.sessions xs
    → IsValid db
    → IsValid (with_rows t xs db)
rows-IsValid session_segments xs db h v = search
rows-IsValid session_beats xs db h v = search
rows-IsValid session_scenes xs db h v = search

-- A change of the sessions that takes none away.
module _ (ss : List Session) (db : Db)
    (keeps : (id : Uuid)
      → any (λ s. s.id == id) db.sessions ≡ true
      → any (λ s. s.id == id) ss ≡ true) where
  kept : {A : Type 0} (f : A → Uuid) (rows : List A) → Refers f db.sessions rows → Refers f ss rows
  kept f rows h =
      All-map (λ r. any (λ s. s.id == f r) db.sessions ≡ true)
        (λ r. any (λ s. s.id == f r) ss ≡ true) rows (λ r k. keeps (f r) k) h

  kept_rows : (rows : List StoredRow) → IsValidTable db.sessions rows → IsValidTable ss rows
  kept_rows rows h = record {
    ids = h.ids;
    clients = h.clients;
    refers = kept _ rows h.refers;
    authors = h.authors;
  }

  pub sessions-IsValid : Unique same_session ss → IsValid db → IsValid (record db { sessions = ss })
  sessions-IsValid u v = record {
    users = v.users;
    display_names = v.display_names;
    sessions = u;
    participant_ids = v.participant_ids;
    participants = v.participants;
    participant_sessions = kept _ db.participants v.participant_sessions;
    metadata = v.metadata;
    metadata_sessions = kept _ db.metadata v.metadata_sessions;
    chunk_numbers = v.chunk_numbers;
    chunk_clients = v.chunk_clients;
    chunk_sessions = kept _ db.chunks v.chunk_sessions;
    segments = kept_rows db.segments v.segments;
    beats = kept_rows db.beats v.beats;
    scenes = kept_rows db.scenes v.scenes;
    mute_ids = v.mute_ids;
    mute_sessions = kept _ db.mute_ranges v.mute_sessions;
    service_ids = v.service_ids;
    service_hashes = v.service_hashes;
    alias_users = v.alias_users;
    alias_sources = v.alias_sources;
    participant_users = v.participant_users;
    participant_pseudonyms = v.participant_pseudonyms;
    participant_scopes = v.participant_scopes;
    audit_ids = v.audit_ids;
    user_pseudonyms = v.user_pseudonyms;
    chunk_pseudonyms = v.chunk_pseudonyms;
    mute_pseudonyms = v.mute_pseudonyms;
    token_users = v.token_users;
    tokens = v.tokens;
    token_sessions = kept _ db.consent_tokens v.token_sessions;
    token_participants = v.token_participants;
  }
