-- ===== src/Teams/Views.antt =====
-- The rows that `Repository` joins for the team service (mod/backend/domain/identity/dao/team_repository.go)
-- and the values that the service answers with.
use marketplace_server.Role.{TeamRole}
use marketplace_server.Identity.Model.{UserStatus}
use marketplace_server.Base.{String, ℕ, Bool, Option, List}

pub record TeamRecord : Type 0 where
  pub id : String
  pub slug : String
  pub display_name : String
  pub current_user_role : TeamRole
  pub created_at : ℕ
  pub updated_at : ℕ

pub record TeamMemberRecord : Type 0 where
  pub user_id : String
  pub username : String
  pub display_name : String
  pub user_status : UserStatus
  pub role : TeamRole
  pub created_at : ℕ
  pub updated_at : ℕ

pub record TeamInvitationRecord : Type 0 where
  pub id : String
  pub namespace_id : String
  pub team_slug : String
  pub team_display_name : String
  pub user_id : String
  pub username : String
  pub user_display_name : String
  pub role : TeamRole
  pub invited_by_user_id : String
  pub inviter_username : String
  pub expires_at : ℕ
  pub accepted_at : Option ℕ
  pub rejected_at : Option ℕ
  pub revoked_at : Option ℕ
  pub created_at : ℕ
  pub updated_at : ℕ

pub record TeamPermissions : Type 0 where
  pub read_members : Bool
  pub manage_members : Bool
  pub update_settings : Bool
  pub manage_owners : Bool

pub record Team : Type 0 where
  pub id : String
  pub slug : String
  pub display_name : String
  pub current_user_role : Option TeamRole
  pub permissions : TeamPermissions
  pub created_at : ℕ
  pub updated_at : ℕ

pub record TeamMember : Type 0 where
  pub user_id : String
  pub username : String
  pub display_name : String
  pub status : UserStatus
  pub role : TeamRole
  pub created_at : ℕ
  pub updated_at : ℕ

pub data InvitationStatus : Type 0 where
  pending accepted rejected revoked expired : InvitationStatus

pub record InvitationView : Type 0 where
  pub id : String
  pub team_id : String
  pub team_slug : String
  pub team_display_name : String
  pub user_id : String
  pub username : String
  pub user_display_name : String
  pub role : TeamRole
  pub invited_by_user_id : String
  pub inviter_username : String
  pub status : InvitationStatus
  pub expires_at : ℕ
  pub accepted_at : Option ℕ
  pub rejected_at : Option ℕ
  pub revoked_at : Option ℕ
  pub created_at : ℕ
  pub updated_at : ℕ

-- A page of a list. The sizes are counted from 0; a number below 0 is refused as 0 is.
pub record Page (A : Type 0) : Type 0 where
  pub items : List A
  pub page : ℕ
  pub size : ℕ
  pub total : ℕ
