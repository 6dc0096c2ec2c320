-- ===== src/Tests.antt =====
-- The theorems at concrete inputs.
pub mod Fixtures
mod Wire
mod Options
mod Client
mod Batch
mod Verbs
mod Updates
mod Transport
mod Collections
mod Fetch
