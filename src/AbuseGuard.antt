-- ===== src/AbuseGuard.antt =====
-- packages/runtime-core/src/abuse-guard.mjs: rate limiting by sliding windows.
pub mod Policies
pub mod Classify
pub mod Window
pub mod Enforce
pub mod Bounds
pub mod Totality
mod Tests
