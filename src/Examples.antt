-- ===== src/Examples.antt =====
-- Runs of the model at concrete inputs.
pub mod Fixtures
mod Policies
mod Labels
mod Keys
mod Buckets
mod Names
mod Admin
mod Enforced
mod Server
mod Counts
mod Main
mod Copies
mod Calls
mod Schemes
mod Stored
mod Quiet
