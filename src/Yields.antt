-- ===== src/Yields.antt =====
-- backend/src/services/yield.ts: what the holders of a vault are told of its yield.
pub mod Pending
