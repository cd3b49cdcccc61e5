-- ===== src/Teams/Store.antt =====
-- The interface `TeamStore` that the team service works on. A read answers from the state and leaves
-- it; a write answers an error or nil and leaves a state, whatever it answers.
use marketplace_server.Teams.Views.{TeamRecord, TeamMemberRecord, TeamInvitationRecord}
use marketplace_server.Base.{String, Result, Bool, ℕ, List}
use marketplace_server.Identity.Model.{
  Namespace, TeamMembership, Check, StoreError, User, TeamInvitation,
}
use marketplace_server.Role.{TeamRole}

-- What `logMutation` writes.
pub record Mutation : Type 0 where
  pub actor_user_id : String
  pub action : String
  pub target_type : String
  pub target_id : String
  pub outcome : String
  pub reason_code : String

pub record TeamStore (S : Type 0) : Type 0 where
  pub create_team : Namespace → TeamMembership → S → Check × S
  pub find_team_by_slug : String → String → S → Result StoreError TeamRecord
  pub list_teams : String → Bool → ℕ → ℕ → S → Result StoreError (List TeamRecord × ℕ)
  pub update_team_display_name : String → String → ℕ → S → Check × S
  pub team_role : String → String → S → Result StoreError TeamRole
  pub list_team_members : String → ℕ → ℕ → S → Result StoreError (List TeamMemberRecord × ℕ)
  pub put_team_member : String → String → TeamRole → ℕ → S → Check × S
  pub remove_team_member : String → String → S → Check × S
  pub find_user_by_username : String → S → Result StoreError User
  pub find_user_by_id : String → S → Result StoreError User
  pub is_system_admin : String → S → Result StoreError Bool
  pub create_team_invitation : TeamInvitation → S → Check × S
  pub list_team_invitations : String → ℕ → ℕ → S → Result StoreError (List TeamInvitationRecord × ℕ)
  pub list_user_pending_invitations :
      String → ℕ → ℕ → ℕ → S → Result StoreError (List TeamInvitationRecord × ℕ)
  pub find_invitation : String → String → S → Result StoreError TeamInvitationRecord
  pub respond_invitation : String → String → Bool → ℕ → S → Result StoreError String × S
  pub revoke_invitation : String → String → ℕ → S → Check × S
  pub reissue_invitation :
      String → String → String → ℕ → ℕ → S → Result StoreError TeamInvitation × S
  -- zap's logger
  pub log : Mutation → S → S
