-- ===== src/Emit.antt =====
-- The emitters of src/mailflow/emit.
pub mod Stages
pub mod Queue
