-- ===== src/Extract.antt =====
-- src/mailflow/extract: what is read out of a message, and what becomes of its attachments.
pub mod Safety
pub mod Clean
pub mod Envelopes
pub mod Mime
pub mod Attachments
pub mod Bodies
pub mod Streaming
