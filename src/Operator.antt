-- ===== src/Operator.antt =====
-- The operator (operator/): its resources, its reconcilers and what they build.
pub mod Filter
pub mod Api
pub mod ReplicaSet
pub mod Wire
pub mod Pod
pub mod Dot
pub mod Ado
pub mod DotFiles
pub mod Token
pub mod Github
pub mod Job
pub mod Webhook
pub mod Runner
pub mod Tests
