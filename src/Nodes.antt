-- ===== src/Nodes.antt =====
-- internal/apiserver/node: which nodes are online, what they can take, the requeueing of runs whose
-- node is gone, and the heartbeat.
pub mod Status
pub mod Manager
pub mod Heartbeat
pub mod Directives
pub mod Standing
