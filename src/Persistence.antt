-- ===== src/Persistence.antt =====
-- The store of received emails in src/mailflow/persistence.
pub mod Emails
