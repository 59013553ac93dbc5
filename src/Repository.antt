-- ===== src/Repository.antt =====
-- internal/repository/helpers.go: one module for each table's repository stands below.
-- A statement runs on the rows as lists; a call that the database fails changes nothing. The
-- constraints are those of internal/database/schema.sql.
pub mod Accounts
pub mod Sessions
pub mod Conversations
pub mod Inbound
pub mod Outbound
pub mod Query
pub mod Statements
pub mod WellFormed
pub mod Consistent
