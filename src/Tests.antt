-- ===== src/Tests.antt =====
-- Runs of the program at concrete inputs: the inputs, and the theorems applied to them.
pub mod World
pub mod Auth
pub mod History
mod Valid
mod Start
mod Router
mod Sessions
mod Storage
mod Chunks
mod Ws
mod Data
mod Uniform
