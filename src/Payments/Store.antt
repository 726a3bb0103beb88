-- ===== src/Payments/Store.antt =====
-- internal/payments/store.go.
pub mod Tables
pub mod Sql
pub mod Runs
pub mod Reads
pub mod Ops
pub mod Spec
pub mod Steps
pub mod Loop
pub mod Upsert
pub mod Batch
pub mod Apply
pub mod Replay
pub mod Outbox
pub mod Covered
pub mod Outputs
pub mod Alone
pub mod Invariant
pub mod Create
pub mod Indexes
