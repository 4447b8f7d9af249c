-- ===== src/Db.antt =====
-- src/db/ and migrations/: the tables as lists of rows, and the statements on them. A statement
-- takes the time that NOW() gives and the database, and returns its result with the new database.
-- A constraint that a statement breaks makes it fail with a database error and write nothing.
-- Failures of the connection are not modelled.
mod Rows
mod Statement
pub mod Sessions
pub mod Chunks
pub mod AuditLog
pub mod Uniform
pub mod MuteRanges
pub mod Metadata
pub mod Participants
pub mod DisplayNames
pub mod Users
pub mod ConsentTokens
pub mod ServiceSessions
pub use Rows.*
unfoldable pub use Statement.*
