-- ===== src/Worker.antt =====
-- The worker service (cmd/operion-worker): how it collects a node's inputs and runs the node.
pub mod Coordinator
pub mod Manager
pub mod Handler
pub mod Grounded
