-- ===== src/LogVolume.antt =====
-- .agents/skills/log-volume-optimizer/scripts
pub mod Log
pub mod Decision
pub mod Batch
pub mod Summary
pub mod Estimate
pub mod Report
mod Tests
