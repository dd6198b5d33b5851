-- ===== src/LogScan.antt =====
-- .agents/skills/log-volume-optimizer/scripts/scan_logs.py
pub mod Statement
pub mod Template
pub mod Lines
pub mod Go
pub mod Php
pub mod TypeScript
pub mod Python
pub mod Files
pub mod Repository
mod Tests
