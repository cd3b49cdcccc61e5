-- ===== src/Identity.antt =====
-- mod/backend/domain/identity: users, teams, invitations and tokens.
pub mod Slug
pub mod Text
pub mod Model
pub mod Hooks
pub mod Store
pub mod Lock
pub mod TeamRepository
pub mod TeamOwners
pub mod MemberWrites
pub mod OwnersKept
pub mod MemberKey
pub mod InvitationRepository
pub mod InvitationRows
pub mod InvitationWrites
pub mod InvitationHistory
pub mod InvitationCommands
pub mod AdminRepository
pub mod AdminEffects
