-- ===== src/PushRules.antt =====
-- Packages/runtime-core/src: the push rules of a user, in client-domain.mjs and durable-objects.mjs.
pub mod Rules
pub mod Baseline
pub mod Values
pub mod Match
pub mod View
pub mod Evaluate
pub mod Table
pub mod Records
pub mod Requests
pub mod Transactions
pub mod Handlers
pub mod Keys
pub mod Reindex
pub mod Renumbering
pub mod Followed
pub mod Placement
pub mod Puts
pub mod Order
pub mod Numbered
pub mod Invariant
pub mod Steps
pub mod Verdicts
pub mod Silence
pub mod Quiet
mod Tests
