-- ===== src/PodResources.antt =====
-- .agents/skills/k8s-resource-analyzer/scripts
pub mod Usage
pub mod Pods
pub mod Categories
pub mod Quantity
pub mod Metrics
pub mod Recommend
pub mod Analyze
pub mod Inputs
pub mod Namespace
pub mod Tests
