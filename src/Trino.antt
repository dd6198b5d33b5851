-- ===== src/Trino.antt =====
-- .agents/skills/trino-analyzer/scripts
pub mod Scan
pub mod Plan
pub mod Cost
pub mod Optimize
pub mod Tests
