-- ===== src/Api.antt =====
-- The HTTP handlers of internal/apiserver that change runs and what belongs to them. A request is
-- given decoded: `none` is a body that does not parse.
pub mod Accounts
pub mod Operations
pub mod Accounting
pub mod Refusals
pub mod TaskRequest
pub mod Tasks
pub mod Browsing
pub mod Planting
pub mod Reply
pub mod Runs
pub mod Events
pub mod Approvals
pub mod Interventions
pub mod Actions
pub mod Decisions
pub mod Successes
pub mod Reporting
pub mod Controls
pub mod Effects
