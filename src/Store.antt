-- ===== src/Store.antt =====
-- internal/infra/postgres: the tables and the queries of each store. A query is a function on the
-- tables; a failing statement changes nothing.
pub mod Db
pub mod Users
pub mod Tokens
pub mod Credentials
pub mod Projects
pub mod Members
pub mod Grants
pub mod Tasks
pub mod Inbox
