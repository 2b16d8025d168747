-- ===== src/Store.antt =====
-- store.py: the event store. `Rows` has the tables; `Columns`, `Records`,
-- `Masters` and `Accounts` the statements that change them, `Access` the scope of a reader, and `Queries` what a reader is given.
pub mod Migration
pub mod Opening
pub mod Created
pub mod Opened
pub mod Rows
pub mod Columns
pub mod Records
pub mod Masters
pub mod Accounts
pub mod Access
pub mod Queries
pub mod Keys
pub mod Deletion
pub mod Passwords
pub mod Verified
pub mod Visible
pub mod Isolation
