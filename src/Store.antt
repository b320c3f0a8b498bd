-- ===== src/Store.antt =====
-- internal/store: the tables, the statements that the server runs on them, and their laws.
pub mod Models
pub mod Db
pub mod Runs
pub mod Claim
pub mod Finish
pub mod Checks
pub mod Nodes
pub mod Accounts
pub mod Results
pub mod Triple
pub mod Total
pub mod Answers
pub mod Lifecycle
pub mod Migrations
