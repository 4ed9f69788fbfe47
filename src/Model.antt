-- ===== src/Model.antt =====
-- The data model of internal/shared/model: runs, tasks, nodes, approvals, operations, permissions.
pub mod Account
pub mod Run
pub mod Task
pub mod Node
pub mod Hitl
pub mod Operation
pub mod Security
