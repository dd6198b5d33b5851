-- ===== src/PostDeployment.antt =====
-- .agents/skills/post-deployment-monitor/scripts
pub mod ImageTag
