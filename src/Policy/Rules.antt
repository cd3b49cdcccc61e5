-- ===== src/Policy/Rules.antt =====
-- mod/backend/domain/authorization/policy.go: the tables of the policy, each a `switch` of the code.
use marketplace_server.Base.{Bool, true, false, ◌&&◌, ◌||◌, not, is_empty, if◌then◌else◌}
use marketplace_server.Role.{TeamRole, owner, admin, maintainer, developer, no_role}
use marketplace_server.Auth.Action.{
  Action, marketplace_read, plugin_create, plugin_list, plugin_read, plugin_write, plugin_archive,
  plugin_publish, token_read, token_write, user_list, user_read, user_create, user_update,
  user_disable, user_enable, user_admin_grant, user_admin_revoke, team_create, team_list, team_read,
  team_settings_write, team_members_read, team_members_manage, team_invitations_read,
  team_invitations_manage, team_invitation_respond, same_action, ResourceType, ResourceRef,
  same_type, is_public, is_private, is_draft, is_active, is_archived, is_ready, is_read_only,
  is_error, PluginAuthorizationFacts,
}

unfoldable pub is_known_action : Action → Bool
is_known_action (Action.unlisted _) = false
is_known_action _ = true

abbrev pub namespace_only : ResourceRef → Bool
namespace_only r =
    same_type r.type ResourceType.namespace && not (is_empty r.id) && is_empty r.namespace_id

abbrev pub qualified : ResourceType → ResourceRef → Bool
qualified t r = same_type r.type t && not (is_empty r.id) && not (is_empty r.namespace_id)

abbrev pub identified : ResourceType → ResourceRef → Bool
identified t r = same_type r.type t && not (is_empty r.id)

unfoldable pub supports_resource : Action → ResourceRef → Bool
supports_resource plugin_create r = namespace_only r
supports_resource plugin_list r = namespace_only r
supports_resource plugin_read r = qualified ResourceType.plugin r
supports_resource plugin_write r = qualified ResourceType.plugin r
supports_resource plugin_archive r = qualified ResourceType.plugin r
supports_resource plugin_publish r = qualified ResourceType.plugin r
supports_resource marketplace_read r =
    same_type r.type ResourceType.marketplace || same_type r.type ResourceType.user
supports_resource token_read r =
    same_type r.type ResourceType.token || same_type r.type ResourceType.token_collection
supports_resource token_write r =
    same_type r.type ResourceType.token || same_type r.type ResourceType.token_collection
supports_resource user_list r = identified ResourceType.user_collection r
supports_resource user_create r = identified ResourceType.user_collection r
supports_resource user_read r = identified ResourceType.user r
supports_resource user_update r = identified ResourceType.user r
supports_resource user_disable r = identified ResourceType.user r
supports_resource user_enable r = identified ResourceType.user r
supports_resource user_admin_grant r = identified ResourceType.user r
supports_resource user_admin_revoke r = identified ResourceType.user r
supports_resource team_create r = namespace_only r
supports_resource team_list r = namespace_only r
supports_resource team_read r = namespace_only r
supports_resource team_settings_write r = namespace_only r
supports_resource team_members_read r = namespace_only r
supports_resource team_invitations_read r = namespace_only r
supports_resource team_invitations_manage r = namespace_only r
supports_resource team_members_manage r = qualified ResourceType.team_membership r
supports_resource team_invitation_respond r = qualified ResourceType.team_invitation r
supports_resource (Action.unlisted _) _ = false

unfoldable pub is_team_action : Action → Bool
is_team_action team_read = true
is_team_action team_settings_write = true
is_team_action team_members_read = true
is_team_action team_members_manage = true
is_team_action team_invitations_read = true
is_team_action team_invitations_manage = true
is_team_action team_invitation_respond = true
is_team_action _ = false

unfoldable pub valid_team_role : TeamRole → Bool
valid_team_role no_role = false
valid_team_role (TeamRole.unlisted _) = false
valid_team_role _ = true

unfoldable pub is_owner_or_admin : TeamRole → Bool
is_owner_or_admin owner = true
is_owner_or_admin admin = true
is_owner_or_admin _ = false

unfoldable pub is_maintainer : TeamRole → Bool
is_maintainer maintainer = true
is_maintainer _ = false

unfoldable pub is_developer : TeamRole → Bool
is_developer developer = true
is_developer _ = false

unfoldable pub allows_team_action : Action → TeamRole → Bool
unfolding valid_team_role is_owner_or_admin
allows_team_action team_read role = valid_team_role role
allows_team_action team_members_read role = valid_team_role role
allows_team_action team_invitations_read role = valid_team_role role
allows_team_action team_settings_write role = is_owner_or_admin role
allows_team_action team_members_manage role = is_owner_or_admin role
allows_team_action team_invitations_manage role = is_owner_or_admin role
allows_team_action team_invitation_respond role = false
allows_team_action _ role = false

unfoldable pub allows_team_plugin_action : Action → TeamRole → Bool
unfolding valid_team_role is_owner_or_admin is_maintainer is_developer
allows_team_plugin_action plugin_list role = valid_team_role role
allows_team_plugin_action plugin_read role = valid_team_role role
allows_team_plugin_action plugin_create role =
    is_owner_or_admin role || is_maintainer role || is_developer role
allows_team_plugin_action plugin_write role =
    is_owner_or_admin role || is_maintainer role || is_developer role
allows_team_plugin_action plugin_archive role = is_owner_or_admin role || is_maintainer role
allows_team_plugin_action plugin_publish role = is_owner_or_admin role || is_maintainer role
allows_team_plugin_action _ role = false

unfoldable pub is_plugin_namespace_action : Action → Bool
is_plugin_namespace_action plugin_create = true
is_plugin_namespace_action plugin_list = true
is_plugin_namespace_action _ = false

unfoldable pub is_plugin_action : Action → Bool
is_plugin_action plugin_read = true
is_plugin_action plugin_write = true
is_plugin_action plugin_archive = true
is_plugin_action plugin_publish = true
is_plugin_action _ = false

unfoldable pub valid_plugin_facts : PluginAuthorizationFacts → Bool
valid_plugin_facts facts =
    if not (is_public facts.visibility) && not (is_private facts.visibility)
    then false
    else if not (is_draft facts.status)
        && not (is_active facts.status)
        && not (is_archived facts.status)
    then false
    else is_ready facts.repository_status
      || is_read_only facts.repository_status
      || is_error facts.repository_status

unfoldable pub allows_public_plugin_read : PluginAuthorizationFacts → Bool
unfolding valid_plugin_facts
allows_public_plugin_read facts =
    valid_plugin_facts facts
    && is_public facts.visibility
    && (is_active facts.status || is_archived facts.status)
    && not (is_error facts.repository_status)

unfoldable pub allows_anonymous_plugin_read : PluginAuthorizationFacts → Bool
unfolding allows_public_plugin_read
allows_anonymous_plugin_read facts = allows_public_plugin_read facts

unfoldable pub allows_plugin_action : Action → PluginAuthorizationFacts → Bool
unfolding valid_plugin_facts
allows_plugin_action action facts =
    let changes = same_action action plugin_write || same_action action plugin_publish in
    if not (valid_plugin_facts facts)
    then false
    else if same_action action plugin_read && is_error facts.repository_status
    then false
    else if changes && not (is_ready facts.repository_status)
    then false
    else if is_archived facts.status && changes
    then false
    else true

unfoldable pub is_self_action : Action → Bool
is_self_action action = same_action action token_read || same_action action token_write
