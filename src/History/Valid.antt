-- ===== src/History/Valid.antt =====
-- The constraints of migrations/ that a history must keep: the keys, the references and the checks.
pub mod Tables
pub mod Audio
pub mod People
pub mod Accounts
pub mod Runs
pub mod Pages
pub mod Streams
use ovp_data_api.Base.{
  Text, Option, none, some, Uuid, Bool, ◌||◌, ◌==◌, text_eq, List, All, any, Unique, ◌≡◌, true,
}
use ovp_data_api.Ids.{PseudoId, pseudo_eq, is_mixed, is_valid_pseudo_id}
use ovp_data_api.Db.{
  Db, User, DisplayName, Session, Participant, MetadataBlob, ChunkRow, StoredRow, MuteRange,
  ServiceSession, ConsentToken, AuditRow,
}
use ovp_data_api.Db.Chunks
use ovp_data_api.Db.Chunks.Listing.{same_number}
use ovp_data_api.Db.DisplayNames
use ovp_data_api.Db.Participants
use ovp_data_api.Db.Uniform

abbrev pub same_user : User → User → Bool
same_user x y = pseudo_eq x.pseudo_id y.pseudo_id

abbrev pub same_alias : DisplayName → DisplayName → Bool
same_alias x y = DisplayNames.of_alias y.pseudo_id y.display_name x

-- A new session stands in front of the others.
abbrev pub same_session : Session → Session → Bool
same_session x y = y.id == x.id

abbrev pub same_participant : Participant → Participant → Bool
same_participant x y = x.id == y.id

abbrev pub same_pair : Participant → Participant → Bool
same_pair x y = Participants.of_pair y.session_id y.pseudo_id x

abbrev pub same_blob : MetadataBlob → MetadataBlob → Bool
same_blob x y = x.session_id == y.session_id

abbrev pub same_chunk : ChunkRow → ChunkRow → Bool
same_chunk x y = Chunks.of_client y.session_id y.pseudo_id y.client_chunk_id x

abbrev pub same_row : StoredRow → StoredRow → Bool
same_row x y = x.id == y.id

abbrev pub same_client : StoredRow → StoredRow → Bool
same_client x y = Uniform.of_session_client y.session_id y.client_id x

abbrev pub same_range : MuteRange → MuteRange → Bool
same_range x y = x.id == y.id

abbrev pub same_service : ServiceSession → ServiceSession → Bool
same_service x y = x.id == y.id

abbrev pub same_hash : ServiceSession → ServiceSession → Bool
same_hash x y = text_eq x.token_hash y.token_hash

abbrev pub same_token : ConsentToken → ConsentToken → Bool
same_token x y = x.token == y.token

-- REFERENCES sessions(id)
abbrev pub Refers : {A : Type 0} → (A → Uuid) → List Session → List A → Type 0
Refers session_of sessions rows = All (λ r. any (λ s. s.id == session_of r) sessions ≡ true) rows

-- REFERENCES session_participants(id)
abbrev pub OfParticipant : List Participant → ConsentToken → Type 0
OfParticipant participants t = any (λ p. p.id == t.participant_id) participants ≡ true

-- REFERENCES users(pseudo_id)
abbrev pub OfUser : List User → PseudoId → Type 0
OfUser users p = any (λ u. pseudo_eq u.pseudo_id p) users ≡ true

-- CHECK (pseudo_id ~ '^[0-9a-f]{24}$')
abbrev pub IsPseudonym : PseudoId → Type 0
IsPseudonym p = is_valid_pseudo_id p.as_str ≡ true

-- CHECK (pseudo_id = 'mixed' OR pseudo_id ~ '^[0-9a-f]{24}$')
abbrev pub IsStreamId : ChunkRow → Type 0
IsStreamId c = (is_mixed c.pseudo_id || is_valid_pseudo_id c.pseudo_id.as_str) ≡ true

abbrev pub same_log : AuditRow → AuditRow → Bool
same_log x y = x.id == y.id

-- CHECK (source IN ('bot','portal_override'))
abbrev pub HasSource : DisplayName → Type 0
HasSource d = DisplayNames.is_source d.source ≡ true

-- CHECK (consent_scope IN ('full','decline','timed_out')), which NULL passes
abbrev pub HasScope : Option Text → Type 0
HasScope none = Unit
HasScope (some s) = Participants.is_scope s ≡ true

-- CHECK (author_user_pseudo_id IS NULL OR author_user_pseudo_id ~ '^[0-9a-f]{24}$')
abbrev pub HasAuthor : StoredRow → Type 0
HasAuthor r = Uniform.author_ok r.author_user_pseudo_id ≡ true

pub record IsValidTable (sessions : List Session) (rows : List StoredRow) : Type 0 where
  pub ids : Unique same_row rows
  pub clients : Unique same_client rows
  pub refers : Refers (λ r. r.session_id) sessions rows
  pub authors : All HasAuthor rows

pub record IsValid (db : Db) : Type 0 where
  pub users : Unique same_user db.users
  pub user_pseudonyms : All (λ u. IsPseudonym u.pseudo_id) db.users
  pub display_names : Unique same_alias db.display_names
  pub alias_users : All (λ d. OfUser db.users d.pseudo_id) db.display_names
  pub alias_sources : All HasSource db.display_names
  pub sessions : Unique same_session db.sessions
  pub participant_ids : Unique same_participant db.participants
  pub participants : Unique same_pair db.participants
  pub participant_sessions : Refers (λ p. p.session_id) db.sessions db.participants
  pub participant_users : All (λ p. OfUser db.users p.pseudo_id) db.participants
  pub participant_pseudonyms : All (λ p. IsPseudonym p.pseudo_id) db.participants
  pub participant_scopes : All (λ p. HasScope p.consent_scope) db.participants
  pub metadata : Unique same_blob db.metadata
  pub metadata_sessions : Refers (λ m. m.session_id) db.sessions db.metadata
  pub chunk_numbers : Unique same_number db.chunks
  pub chunk_clients : Unique same_chunk db.chunks
  pub chunk_sessions : Refers (λ c. c.session_id) db.sessions db.chunks
  pub chunk_pseudonyms : All IsStreamId db.chunks
  pub segments : IsValidTable db.sessions db.segments
  pub beats : IsValidTable db.sessions db.beats
  pub scenes : IsValidTable db.sessions db.scenes
  pub mute_ids : Unique same_range db.mute_ranges
  pub mute_sessions : Refers (λ m. m.session_id) db.sessions db.mute_ranges
  pub mute_pseudonyms : All (λ m. IsPseudonym m.pseudo_id) db.mute_ranges
  pub service_ids : Unique same_service db.service_sessions
  pub service_hashes : Unique same_hash db.service_sessions
  pub tokens : Unique same_token db.consent_tokens
  pub token_sessions : Refers (λ t. t.session_id) db.sessions db.consent_tokens
  pub token_participants : All (OfParticipant db.participants) db.consent_tokens
  pub token_users : All (λ t. OfUser db.users t.pseudo_id) db.consent_tokens
  pub audit_ids : Unique same_log db.audit_log
