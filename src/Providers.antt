-- ===== src/Providers.antt =====
-- The providers of src/mailflow/providers.
pub mod Memory
