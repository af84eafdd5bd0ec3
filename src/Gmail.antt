-- ===== src/Gmail.antt =====
-- The Gmail adapter, src/mailflow/adapters/gmail. The calls of Gmail are parameters, functions on a state `X` of
-- the world outside that may raise.
pub mod Client
pub mod Notifications
pub mod Webhook
pub mod Provider
pub mod Watches
pub mod Runtime
