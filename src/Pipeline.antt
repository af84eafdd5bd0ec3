-- ===== src/Pipeline.antt =====
-- src/mailflow/core/pipeline.py: its components and state, its methods, and what is shown of them.
pub mod Components
pub mod World
pub mod Work
pub mod Process
pub mod Run
pub mod Effects
pub mod Outcome
pub mod Handlers
pub mod Claims
pub mod Verdict
pub mod Tagging
pub mod Loop
pub mod Retries
pub mod Once
pub mod LowWater
pub mod SharedCursor
pub mod Accounting
