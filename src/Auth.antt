-- ===== src/Auth.antt =====
-- backend/src/api/middleware/auth.ts: API keys and admin sessions.
pub mod Text
pub mod Cidr
pub mod Keys
pub mod Guard
mod Tests
