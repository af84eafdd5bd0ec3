-- ===== src/Core.antt =====
-- The package src/mailflow/core without its pipeline: value models, identity, classification,
-- filter decisions, events, reports and the health probe.
pub mod Models
pub mod Streams
pub mod Filtering
pub mod Identity
pub mod Classification
pub mod Report
pub mod Health
