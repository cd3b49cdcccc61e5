-- ===== src/Identity/Model.antt =====
-- mod/backend/domain/identity/model: the rows of the identity tables, and the checks that gorm runs
-- before it writes them (`BeforeCreate`, `BeforeUpdate`, `BeforeDelete`). A `time.Time` is the
-- number of its nanosecond, and `UTC()` keeps it.
pub use marketplace_server.Database.Error.{
  StoreError, immutable_system_group, persisted_default_membership, invalid_token_preset,
  invalid_personal_access_token, invalid_user, invalid_namespace, invalid_system_group,
  invalid_team_membership, invalid_team_invitation, not_found, conflict, invalid_pagination,
  invalid_scope, plugin_not_found, already_exists, version_not_available, plugin_conflict,
  append_only, rejected, manual_required, database, Check, require,
}
use marketplace_server.Role.{TeamRole}
use Prim.Native.String.{String}
use marketplace_server.Base.{Bool, Option, false, true, ℕ, ◌==◌, ◌||◌}

pub data UserStatus : Type 0 where
  active disabled : UserStatus
  unlisted : String → UserStatus

pub data NamespaceKind : Type 0 where
  user team : NamespaceKind
  unlisted : String → NamespaceKind

pub data TokenPreset : Type 0 where
  sub_read git_clone git_write : TokenPreset
  unlisted : String → TokenPreset

abbrev pub admin_system_group_id : String
admin_system_group_id = "00000000-0000-4000-8000-000000000001"

abbrev pub default_system_group_id : String
default_system_group_id = "00000000-0000-4000-8000-000000000002"

pub record User : Type 0 where
  pub id : String
  pub username : String
  pub email : Option String
  pub display_name : String
  pub status : UserStatus
  pub password_hash : String
  pub created_at : ℕ
  pub updated_at : ℕ

pub record Namespace : Type 0 where
  pub id : String
  pub kind : NamespaceKind
  pub slug : String
  pub display_name : String
  pub owner_user_id : Option String
  pub created_at : ℕ
  pub updated_at : ℕ

pub record UserGroupMembership : Type 0 where
  pub user_id : String
  pub group_id : String
  pub created_at : ℕ

pub record TeamMembership : Type 0 where
  pub namespace_id : String
  pub user_id : String
  pub role : TeamRole
  pub created_at : ℕ
  pub updated_at : ℕ

pub record TeamInvitation : Type 0 where
  pub id : String
  pub namespace_id : String
  pub user_id : String
  pub role : TeamRole
  pub invited_by_user_id : String
  pub expires_at : ℕ
  pub accepted_at : Option ℕ
  pub rejected_at : Option ℕ
  pub revoked_at : Option ℕ
  pub created_at : ℕ
  pub updated_at : ℕ

pub record PersonalAccessToken : Type 0 where
  pub id : String
  pub user_id : String
  pub name : String
  pub preset : TokenPreset
  pub secret_plaintext : String
  pub secret_hmac : String
  pub expires_at : Option ℕ
  pub last_used_at : Option ℕ
  pub revoked_at : Option ℕ
  pub created_at : ℕ
  pub updated_at : ℕ

abbrev pub is_active : UserStatus → Bool
is_active active = true
is_active _ = false

abbrev pub is_disabled : UserStatus → Bool
is_disabled disabled = true
is_disabled _ = false

-- Go's `==` on two statuses.
abbrev pub status_spelling : UserStatus → String
status_spelling active = "active"
status_spelling disabled = "disabled"
status_spelling (UserStatus.unlisted s) = s

abbrev pub same_status : UserStatus → UserStatus → Bool
same_status a b = status_spelling a == status_spelling b

unfoldable pub is_team_role : TeamRole → Bool
is_team_role TeamRole.no_role = false
is_team_role (TeamRole.unlisted _) = false
is_team_role _ = true

unfoldable pub is_supported_preset : TokenPreset → Bool
is_supported_preset (TokenPreset.unlisted _) = false
is_supported_preset _ = true

unfoldable pub is_fixed_system_group : String → Bool
is_fixed_system_group id = id == admin_system_group_id || id == default_system_group_id
