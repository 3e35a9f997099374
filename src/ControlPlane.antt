-- ===== src/ControlPlane.antt =====
-- packages/control-plane/src: the scopes that an operator's requests name.
pub mod Scopes
pub mod Tables
pub mod Ledger
pub mod Rows
pub mod Reservations
pub mod Answers
pub mod LedgerTests
pub mod QueueTests
pub mod Jobs
pub mod Queue
pub mod Process
pub mod Shards
pub mod Redelivery
pub mod Completion
pub mod Payloads
pub mod Worker
pub mod Cancel
pub mod Endings
pub mod Reopening
pub mod Restarts
pub mod Underway
pub mod Deliveries
pub mod Finishing
pub mod Staging
pub mod Runs
pub mod Constraints
pub mod Grants
pub mod Kinds
pub mod Authorized
pub mod Trims
pub mod Tokens
pub mod Tests
