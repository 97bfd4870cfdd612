-- ===== src/Rpc.antt =====
-- The RPC guards of the backend: the concurrency limiter, the endpoint health probes and the
-- retry loop (backend/src/services/rpcLimiter.ts, rpcHealth.ts, and `withBackoff` of indexer.ts).
pub mod Limiter
pub mod Endpoints
