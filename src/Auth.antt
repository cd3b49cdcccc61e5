-- ===== src/Auth.antt =====
-- pkg/auth/contracts.go: what the other parts of the server know of authentication.
pub mod Action
pub mod Scope
pub mod Principal
