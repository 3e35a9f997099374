-- ===== src/Room/Rules.antt =====
-- What the membership rules and the event authorization of the room guarantee
-- (packages/runtime-core/src/durable-objects.mjs).
pub mod Decisions
pub mod Members
pub mod Events
pub mod Padding
