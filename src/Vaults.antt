-- ===== src/Vaults.antt =====
-- backend/src/services/vault.ts: the queries of the vault list.
pub mod Names
pub mod Filter
pub mod Sorting
pub mod Listing
