-- ===== src/Session.antt =====
-- Sessions of a user: tokens (packages/runtime-core/src/user-identity.mjs), and the checks, the
-- refresh and the logout of `UserDO` (packages/runtime-core/src/durable-objects.mjs).
pub mod Tokens
pub mod Rows
pub mod Usable
pub mod Refresh
pub mod Rotation
pub mod Handouts
pub mod Resolve
pub mod Validity
mod Tests
