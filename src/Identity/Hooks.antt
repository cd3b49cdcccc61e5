-- ===== src/Identity/Hooks.antt =====
-- mod/backend/domain/identity/model: what gorm's hooks check before a row is written.
use Prim.Native.String.{len, String}
use marketplace_server.Platform.{Platform}
use marketplace_server.Identity.Slug.{canonical_identity_slug}
use marketplace_server.Identity.Text.{normalize_username, trim_space, to_lower}
use marketplace_server.Identity.Model.{
  User, Namespace, UserGroupMembership, TeamMembership, TeamInvitation, Check, invalid_user,
  invalid_namespace, persisted_default_membership, invalid_team_membership, invalid_team_invitation,
  is_active, is_disabled, is_team_role, default_system_group_id, NamespaceKind,
}
use marketplace_server.Base.{
  Option, Bool, if◌then◌else◌, false, not, true, ◌==◌, some, ◌||◌, is_empty, ltb, none, is_some,
  ◌&&◌,
}

module _ (env : Platform) where
  unfoldable pub is_canonical_uuid : String → Bool
  is_canonical_uuid value = elim (env.parse_uuid value) [
    | none ↦ false
    | some parsed ↦ parsed == value
  ]

  unfoldable pub is_canonical_email : Option String → Bool
  is_canonical_email none = true
  is_canonical_email (some email) =
      let normalized = to_lower env (trim_space email) in
      not (is_empty normalized) && normalized == email

  -- User.BeforeCreate
  unfoldable pub user_before_create : User → Check
  unfolding is_canonical_email
  user_before_create user =
      if not (user.username == normalize_username env user.username)
        || ltb 64 (len user.username)
        || not (canonical_identity_slug user.username)
      then some invalid_user
      else if not (is_active user.status) && not (is_disabled user.status)
      then some invalid_user
      else if not (is_canonical_email user.email)
      then some invalid_user
      else none

  owner_matches_kind : NamespaceKind → Option String → Bool
  owner_matches_kind NamespaceKind.user none = false
  owner_matches_kind NamespaceKind.user (some owner) = not (is_empty owner)
  owner_matches_kind NamespaceKind.team owner = not (is_some owner)
  owner_matches_kind (NamespaceKind.unlisted _) _ = false

  -- Namespace.BeforeCreate
  unfoldable pub namespace_before_create : Namespace → Check
  unfolding owner_matches_kind
  namespace_before_create namespace =
      if not (namespace.slug == normalize_username env namespace.slug)
        || ltb 128 (len namespace.slug)
        || not (canonical_identity_slug namespace.slug)
      then some invalid_namespace
      else if not (owner_matches_kind namespace.kind namespace.owner_user_id)
      then some invalid_namespace
      else none

  -- TeamMembership.BeforeCreate
  unfoldable pub team_membership_before_create : TeamMembership → Check
  team_membership_before_create membership =
      if not (is_canonical_uuid membership.namespace_id)
        || not (is_canonical_uuid membership.user_id)
        || not (is_team_role membership.role)
      then some invalid_team_membership
      else none

  -- TeamInvitation.BeforeCreate
  unfoldable pub team_invitation_before_create : TeamInvitation → Check
  team_invitation_before_create invitation =
      if not (is_canonical_uuid invitation.id)
        || not (is_canonical_uuid invitation.namespace_id)
        || not (is_canonical_uuid invitation.user_id)
        || not (is_canonical_uuid invitation.invited_by_user_id)
        || not (is_team_role invitation.role)
        || not (ltb invitation.created_at invitation.expires_at)
      then some invalid_team_invitation
      else none

-- UserGroupMembership.BeforeCreate and BeforeUpdate
unfoldable pub user_group_membership_before_write : UserGroupMembership → Check
user_group_membership_before_write membership =
    if membership.group_id == default_system_group_id
    then some persisted_default_membership
    else none
