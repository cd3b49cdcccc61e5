-- ===== src/Auth/Action.antt =====
-- pkg/auth/contracts.go: actions, resources and the facts about a plugin. Each is a Go string type;
-- `unlisted` stands for the strings that no constant of the source spells.
use marketplace_server.Base.{String, Bool, true, false, ◌==◌, if◌then◌else◌}

pub data Action : Type 0 where
  marketplace_read : Action
  plugin_create plugin_list plugin_read plugin_write plugin_archive plugin_publish : Action
  token_read token_write : Action
  user_list user_read user_create user_update user_disable user_enable : Action
  user_admin_grant user_admin_revoke : Action
  team_create team_list team_read team_settings_write : Action
  team_members_read team_members_manage : Action
  team_invitations_read team_invitations_manage team_invitation_respond : Action
  unlisted : String → Action

-- The string that each constant stands for; Go compares actions by it.
abbrev pub spelling : Action → String
spelling marketplace_read = "marketplace.read"
spelling plugin_create = "plugin.create"
spelling plugin_list = "plugin.list"
spelling plugin_read = "plugin.read"
spelling plugin_write = "plugin.write"
spelling plugin_archive = "plugin.archive"
spelling plugin_publish = "plugin.publish"
spelling token_read = "token.read"
spelling token_write = "token.write"
spelling user_list = "user.list"
spelling user_read = "user.read"
spelling user_create = "user.create"
spelling user_update = "user.update"
spelling user_disable = "user.disable"
spelling user_enable = "user.enable"
spelling user_admin_grant = "user.admin.grant"
spelling user_admin_revoke = "user.admin.revoke"
spelling team_create = "team.create"
spelling team_list = "team.list"
spelling team_read = "team.read"
spelling team_settings_write = "team.settings.write"
spelling team_members_read = "team.members.read"
spelling team_members_manage = "team.members.manage"
spelling team_invitations_read = "team.invitations.read"
spelling team_invitations_manage = "team.invitations.manage"
spelling team_invitation_respond = "team.invitation.respond"
spelling (unlisted s) = s

abbrev pub same_action : Action → Action → Bool
same_action a b = spelling a == spelling b

pub data ResourceType : Type 0 where
  namespace plugin marketplace token token_collection : ResourceType
  user user_collection team_membership team_invitation : ResourceType
  unlisted : String → ResourceType

abbrev pub type_spelling : ResourceType → String
type_spelling namespace = "namespace"
type_spelling plugin = "plugin"
type_spelling marketplace = "marketplace"
type_spelling token = "token"
type_spelling token_collection = "token_collection"
type_spelling user = "user"
type_spelling user_collection = "user_collection"
type_spelling team_membership = "team_membership"
type_spelling team_invitation = "team_invitation"
type_spelling (unlisted s) = s

abbrev pub same_type : ResourceType → ResourceType → Bool
same_type t u = type_spelling t == type_spelling u

pub record ResourceRef : Type 0 where
  pub type : ResourceType
  pub id : String
  pub namespace_id : String

pub data PluginVisibility : Type 0 where
  public private : PluginVisibility
  unlisted : String → PluginVisibility

abbrev pub visibility_spelling : PluginVisibility → String
visibility_spelling public = "public"
visibility_spelling private = "private"
visibility_spelling (PluginVisibility.unlisted s) = s

-- The visibility that a string spells.
abbrev pub read_visibility : String → PluginVisibility
read_visibility s =
    if s == "public"
    then public
    else if s == "private"
    then private
    else PluginVisibility.unlisted s

abbrev pub is_public : PluginVisibility → Bool
is_public public = true
is_public _ = false

abbrev pub is_private : PluginVisibility → Bool
is_private private = true
is_private _ = false

pub data PluginStatus : Type 0 where
  draft active archived : PluginStatus
  unlisted : String → PluginStatus

abbrev pub plugin_status_spelling : PluginStatus → String
plugin_status_spelling draft = "draft"
plugin_status_spelling active = "active"
plugin_status_spelling archived = "archived"
plugin_status_spelling (PluginStatus.unlisted s) = s

abbrev pub is_draft : PluginStatus → Bool
is_draft draft = true
is_draft _ = false

abbrev pub is_active : PluginStatus → Bool
is_active active = true
is_active _ = false

abbrev pub is_archived : PluginStatus → Bool
is_archived archived = true
is_archived _ = false

pub data RepositoryOperationalStatus : Type 0 where
  ready read_only error : RepositoryOperationalStatus
  unlisted : String → RepositoryOperationalStatus

abbrev pub is_ready : RepositoryOperationalStatus → Bool
is_ready ready = true
is_ready _ = false

abbrev pub is_read_only : RepositoryOperationalStatus → Bool
is_read_only read_only = true
is_read_only _ = false

abbrev pub is_error : RepositoryOperationalStatus → Bool
is_error error = true
is_error _ = false

pub record PluginAuthorizationFacts : Type 0 where
  pub visibility : PluginVisibility
  pub status : PluginStatus
  pub repository_status : RepositoryOperationalStatus
