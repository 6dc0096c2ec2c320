-- ===== src/Verbs.antt =====
-- The verbs of the client: get.go, set.go, delete.go, counter.go, update.go, and meta.go.
pub mod Get
pub mod Set
pub mod Delete
pub mod Counter
pub mod Transform
pub mod Update
pub mod Meta
pub mod Collections
pub mod Ambiguity
