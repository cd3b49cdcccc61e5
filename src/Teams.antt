-- ===== src/Teams.antt =====
-- mod/backend/domain/identity/service/team_service.go: what the API does with teams, members and
-- invitations, over any store.
pub mod Views
pub mod Access
pub mod Store
pub mod Step
pub mod Service
pub mod Members
pub mod Invitations
pub mod Requests
pub mod Denied
pub mod Owners
pub mod Forbidden
pub mod Shown
