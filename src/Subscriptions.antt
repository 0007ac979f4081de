-- ===== src/Subscriptions.antt =====
-- `SubscriptionManager` of packages/runtime/src/subscription-manager.ts.
pub mod Manager
pub mod Listening
mod Tests
