-- ===== src/Nodes.antt =====
-- The node types (pkg/nodes), and what they share.
pub mod Common
pub mod Merge
pub mod Switch
pub mod Conditional
pub mod Transform
pub mod Log
pub mod HttpRequest
pub mod Trigger
pub mod Contract
pub mod Validation
