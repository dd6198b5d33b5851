-- ===== src/Flink.antt =====
-- .agents/skills/flink-optimizer/scripts/analyze_flink_job.py
pub mod Streams
pub mod Warnings
pub mod Jobspec
pub mod Runtime
mod Tests
