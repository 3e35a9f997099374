-- ===== src/SyncWaiters.antt =====
-- Packages/runtime-core/src/client-domain.mjs: the syncs that wait for a user's stream to grow.
pub mod Hub
pub mod Pending
pub mod Order
pub mod Waking
pub mod Registering
pub mod Steps
pub mod Promises
mod Tests
