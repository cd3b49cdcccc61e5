-- ===== src/Policy.antt =====
-- mod/backend/domain/authorization/policy.go: the authorization policy and what it permits.
pub mod Rules
pub mod Targets
pub mod Authorize
pub mod Matrix
pub mod Exact
pub mod Admission
pub mod Order
