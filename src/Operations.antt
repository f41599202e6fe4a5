-- ===== src/Operations.antt =====
-- The operation services: packages/server/src/services/operation-*.ts.
pub mod Eor
pub mod Checks
pub mod Submit
pub mod Prepared
pub mod Committed
pub mod Chain
pub mod Ready
pub mod Accepted
pub mod Interleaving
pub mod Replay
pub mod Queries
pub mod Verify
mod Tests
