-- ===== src/Indexer.antt =====
-- backend/src/services/indexer.ts: the event indexer that keeps the database in step with the
-- chain.
pub mod Store
pub mod Fixtures
pub mod Positions
pub mod Epochs
pub mod Cursor
pub mod Redemptions
pub mod Lifecycle
pub mod Access
pub mod Transfers
pub mod Status
pub mod Settings
