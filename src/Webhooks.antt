-- ===== src/Webhooks.antt =====
-- The webhook endpoints: their store and the requests that create and delete them.
pub mod Endpoints
pub mod Replays
mod Tests
