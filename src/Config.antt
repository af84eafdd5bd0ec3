-- ===== src/Config.antt =====
-- The configuration of src/mailflow/config.
pub mod State
