-- ===== src/Room.antt =====
-- The room actor (`RoomDO` of packages/runtime-core/src/durable-objects.mjs): the state map that
-- its authorization reads, power levels, membership rules and event admission.
pub mod State
pub mod Power
pub mod Membership
pub mod Authorize
pub mod Redaction
pub mod Store
pub mod Identity
pub mod Graph
pub mod Commit
pub mod Admission
pub mod Admit
pub mod Positions
pub mod Order
pub mod Replay
pub mod Frontier
pub mod Bans
pub mod Cursor
pub mod Rules
mod Tests
mod AdmitTests
mod CursorTests
