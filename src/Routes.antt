-- ===== src/Routes.antt =====
-- src/routes/: the handlers.
pub mod Guild
pub mod Sessions
pub mod Chunks
pub mod Mute
pub mod Participants
pub mod Tagged
pub mod Metadata
pub mod UniformCrud
pub mod Users
pub mod Consent
pub mod Auth
pub mod Health
