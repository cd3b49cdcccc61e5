-- ===== src/Receive.antt =====
-- mod/backend/domain/plugin/receive/coordinator.go: how a push that moves or deletes published tags is
-- prepared and settled in the database.
pub mod Writes
pub mod Prepare
pub mod Resolve
pub mod Manual
pub mod Kept
pub mod TransactionsKept
pub mod PrepareKept
pub mod Withheld
pub mod Final
pub mod Events
pub mod Classify
