-- ===== src/Storage.antt =====
-- The persistent store of internal/shared/storage/repository over its tables: `World` is the
-- database with the outcome of each statement, and a statement of the source is one `call`.
pub mod World
pub mod Order
pub mod Runs
pub mod Tasks
pub mod Events
pub mod Nodes
pub mod Hitl
pub mod Actions
pub mod View
pub mod Writes
pub mod Leads
pub mod Listing
pub mod Ties
pub mod Tree
pub mod Accounts
