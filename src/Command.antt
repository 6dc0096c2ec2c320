-- ===== src/Command.antt =====
-- The builders of client.go, which turn typed options into a `MetaCommand`, and the readers that
-- turn a `RawResponse` into a typed result: one child for each of mg, ms, md and ma.
pub mod Flags
pub mod Get
pub mod Set
pub mod Delete
pub mod Arithmetic
pub mod Tokens
pub mod Accepted
