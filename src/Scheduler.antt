-- ===== src/Scheduler.antt =====
-- internal/apiserver/scheduler: the strategies that choose a node, their chain, the configuration,
-- and the loops that assign queued runs.
pub mod Strategy
pub mod Chain
pub mod Balance
pub mod RoundRobin
pub mod Selection
pub mod Serving
pub mod Loop
pub mod Optimal
pub mod Setup
pub mod Assigning
