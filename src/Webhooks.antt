-- ===== src/Webhooks.antt =====
-- backend/src/services/webhookWorker.ts, webhookThrottle.ts, webhookSignature.ts and the retries of
-- notifications.ts: the delivery of notifications to webhooks.
pub mod Store
pub mod Signature
pub mod Worker
pub mod Retries
pub mod Rotation
pub mod Circuit
pub mod Throttle
mod Tests
