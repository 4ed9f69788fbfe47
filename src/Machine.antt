-- ===== src/Machine.antt =====
-- internal/nodemanager: the process on a node. It asks for the runs that are assigned to its node,
-- executes each in a container, and reports events, a status and heartbeats.
pub mod Adapters
pub mod Parsing
pub mod Workspaces
pub mod Containers
pub mod Execution
pub mod Process
pub mod Reporting
pub mod Statuses
pub mod Cancelling
pub mod Lines
pub mod Ends
pub mod Created
pub mod Nodes
pub mod Rounds
