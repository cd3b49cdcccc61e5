-- ===== src/Git.antt =====
-- mod/git/receive.go: what the server does with a push, as far as it is a function of bytes.
pub mod Bytes
pub mod PktLine
pub mod PushOptions
pub mod Resolution
pub mod Commands
pub mod Transaction
pub mod Settled
