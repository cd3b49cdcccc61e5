-- ===== src/Policy/Matrix.antt =====
-- The authorization matrix, described apart from the code: which rank a team action asks for, what
-- else entitles a user, and the facts of a plugin that stand above every entitlement.
use marketplace_server.Base.{ℕ, ◌≤◌, ◌≡◌, ◌⊎◌, true, ◌≢◌}
use marketplace_server.Role.{TeamRole, owner, admin, maintainer, developer, viewer, no_role}
use marketplace_server.Auth.Action.{
  Action, marketplace_read, plugin_create, plugin_list, plugin_read, plugin_write, plugin_archive,
  plugin_publish, token_read, token_write, team_create, team_list, team_read, team_settings_write,
  team_members_read, team_members_manage, team_invitations_read, team_invitations_manage,
  team_invitation_respond, PluginAuthorizationFacts, public, active, private, archived, draft,
  ready, read_only, error,
}
use marketplace_server.Policy.Authorize.{IdentityState}

-- Team roles in order of power; a stranger has rank 0.
abbrev pub rank : TeamRole → ℕ
rank owner = 5
rank admin = 4
rank maintainer = 3
rank developer = 2
rank viewer = 1
rank no_role = 0
rank (TeamRole.unlisted _) = 0

-- The rank that a member needs for an action on the team or on its plugins; 6 is more than any.
abbrev pub threshold : Action → ℕ
threshold team_read = 1
threshold team_members_read = 1
threshold team_invitations_read = 1
threshold plugin_list = 1
threshold plugin_read = 1
threshold plugin_create = 2
threshold plugin_write = 2
threshold plugin_archive = 3
threshold plugin_publish = 3
threshold team_settings_write = 4
threshold team_members_manage = 4
threshold team_invitations_manage = 4
threshold _ = 6

-- What anyone may read: a public plugin, active or archived, whose repository serves reads.
pub record IsPublicRead (f : PluginAuthorizationFacts) : Type 0 where
  pub visibility : f.visibility ≡ public
  pub status : (f.status ≡ active) ⊎ (f.status ≡ archived)
  pub repository : (f.repository_status ≡ ready) ⊎ (f.repository_status ≡ read_only)

-- What the state of a plugin admits, whoever asks: its facts are known ones, a broken repository
-- is not read, and only an unarchived plugin with a ready repository changes.
pub record IsOperable (a : Action) (f : PluginAuthorizationFacts) : Type 0 where
  pub visibility : (f.visibility ≡ public) ⊎ (f.visibility ≡ private)
  pub status : (f.status ≡ draft) ⊎ (f.status ≡ active) ⊎ (f.status ≡ archived)
  pub repository :
      (f.repository_status ≡ ready)
      ⊎ (f.repository_status ≡ read_only)
      ⊎ (f.repository_status ≡ error)
  pub reads : a ≡ plugin_read → f.repository_status ≢ error
  pub writes : a ≡ plugin_write → (f.repository_status ≡ ready) × (f.status ≢ archived)
  pub publishes : a ≡ plugin_publish → (f.repository_status ≡ ready) × (f.status ≢ archived)

abbrev pub HasRank : Action → IdentityState → Type 0
HasRank a s = (s.system_admin ≡ true) ⊎ (threshold a ≤ rank s.team_role)

-- In a namespace of their own, users need no role.
abbrev pub HasNamespaceRank : Action → IdentityState → Type 0
HasNamespaceRank a s =
    (s.system_admin ≡ true) ⊎ (s.owns_personal_namespace ≡ true) ⊎ (threshold a ≤ rank s.team_role)

-- What entitles an active user to each action.
abbrev pub Entitled : Action → IdentityState → Type 0
Entitled team_create s = Unit
Entitled team_list s = Unit
Entitled team_invitation_respond s = (s.system_admin ≡ true) ⊎ (s.invitation_target ≡ true)
Entitled team_read s = HasRank team_read s
Entitled team_settings_write s = HasRank team_settings_write s
Entitled team_members_read s = HasRank team_members_read s
Entitled team_members_manage s = HasRank team_members_manage s
Entitled team_invitations_read s = HasRank team_invitations_read s
Entitled team_invitations_manage s = HasRank team_invitations_manage s
Entitled plugin_create s = HasNamespaceRank plugin_create s
Entitled plugin_list s = HasNamespaceRank plugin_list s
Entitled plugin_read s =
    IsOperable plugin_read s.plugin × (IsPublicRead s.plugin ⊎ HasNamespaceRank plugin_read s)
Entitled plugin_write s = IsOperable plugin_write s.plugin × HasNamespaceRank plugin_write s
Entitled plugin_archive s = IsOperable plugin_archive s.plugin × HasNamespaceRank plugin_archive s
Entitled plugin_publish s = IsOperable plugin_publish s.plugin × HasNamespaceRank plugin_publish s
Entitled token_read s = (s.system_admin ≡ true) ⊎ (s.owns_resource ≡ true)
Entitled token_write s = (s.system_admin ≡ true) ⊎ (s.owns_resource ≡ true)
Entitled marketplace_read s = (s.system_admin ≡ true) ⊎ (s.owns_personal_namespace ≡ true)
Entitled _ s = s.system_admin ≡ true
