-- ===== src/Policy/Exact.antt =====
-- mod/backend/domain/authorization/policy.go: the branches of `Authorize` on a user's state against the
-- matrix.
use marketplace_server.Base.{◌≡◌, arith, true, ◌&&◌, ◌||◌, leb, refl}
use marketplace_server.Role.{TeamRole}
use marketplace_server.Auth.Action.{
  Action, PluginAuthorizationFacts, plugin_read, team_read, plugin_write, plugin_archive,
  plugin_publish,
}
use marketplace_server.Policy.Rules.{
  allows_plugin_action, allows_public_plugin_read, allows_team_action, allows_team_plugin_action,
  is_plugin_action, is_plugin_namespace_action, is_team_action, is_known_action,
}
use marketplace_server.Policy.Authorize.{authorize_user, IdentityState, allowed}
use marketplace_server.Policy.Matrix.{rank, IsOperable, IsPublicRead, threshold, Entitled}

pub allows_public-IsPublicRead :
    (f : PluginAuthorizationFacts) → allows_public_plugin_read f ≡ true → IsPublicRead f
unfolding allows_public_plugin_read
allows_public-IsPublicRead f h = record {
  visibility = ground arith;
  status = ground arith;
  repository = ground arith;
}

pub IsPublicRead-allows_public :
    (f : PluginAuthorizationFacts) → IsPublicRead f → allows_public_plugin_read f ≡ true
unfolding allows_public_plugin_read
IsPublicRead-allows_public f h = ground arith

plugin_action-IsOperable :
    (a : Action) (f : PluginAuthorizationFacts)
    → is_plugin_action a ≡ true
    → allows_plugin_action a f ≡ true
    → IsOperable a f
unfolding allows_plugin_action is_plugin_action
plugin_action-IsOperable plugin_read f k h = ground arith
plugin_action-IsOperable _ f k h = ground arith

IsOperable-plugin_action :
    (a : Action) (f : PluginAuthorizationFacts)
    → is_plugin_action a ≡ true
    → IsOperable a f
    → allows_plugin_action a f ≡ true
unfolding allows_plugin_action is_plugin_action
IsOperable-plugin_action plugin_read f k h = ground arith
IsOperable-plugin_action _ f k h = ground arith

leb-rank-team :
    (a : Action) (r : TeamRole)
    → allows_team_action a r ≡ (is_team_action a && leb (threshold a) (rank r))
unfolding allows_team_action is_team_action
leb-rank-team team_read r = ground arith
leb-rank-team _ r = ground arith

leb-rank-plugin :
    (a : Action) (r : TeamRole)
    → allows_team_plugin_action a r
      ≡ ((is_plugin_action a || is_plugin_namespace_action a) && leb (threshold a) (rank r))
unfolding allows_team_plugin_action is_plugin_action is_plugin_namespace_action
leb-rank-plugin plugin_read r = ground arith
leb-rank-plugin _ r = ground arith

pub authorize_user-Entitled :
    (a : Action) (s : IdentityState)
    → is_known_action a ≡ true
    → authorize_user a s ≡ allowed
    → (s.active ≡ true) × Entitled a s
unfolding authorize_user is_known_action
authorize_user-Entitled plugin_read s c h = ground (
  arith,
  leb-rank-plugin plugin_read s.team_role,
  plugin_action-IsOperable plugin_read s.plugin refl,
  allows_public-IsPublicRead s.plugin,
)
authorize_user-Entitled plugin_write s c h = ground (
  arith,
  leb-rank-plugin plugin_write s.team_role,
  plugin_action-IsOperable plugin_write s.plugin refl,
)
authorize_user-Entitled plugin_archive s c h = ground (
  arith,
  leb-rank-plugin plugin_archive s.team_role,
  plugin_action-IsOperable plugin_archive s.plugin refl,
)
authorize_user-Entitled plugin_publish s c h = ground (
  arith,
  leb-rank-plugin plugin_publish s.team_role,
  plugin_action-IsOperable plugin_publish s.plugin refl,
)
authorize_user-Entitled a s c h =
    ground (arith, leb-rank-plugin a s.team_role, leb-rank-team a s.team_role)

pub Entitled-authorize_user :
    (a : Action) (s : IdentityState)
    → is_known_action a ≡ true
    → s.active ≡ true
    → Entitled a s
    → authorize_user a s ≡ allowed
unfolding authorize_user is_known_action
Entitled-authorize_user plugin_read s c k h = ground (
  arith,
  leb-rank-plugin plugin_read s.team_role,
  IsOperable-plugin_action plugin_read s.plugin refl,
  IsPublicRead-allows_public s.plugin,
)
Entitled-authorize_user plugin_write s c k h = ground (
  arith,
  leb-rank-plugin plugin_write s.team_role,
  IsOperable-plugin_action plugin_write s.plugin refl,
)
Entitled-authorize_user plugin_archive s c k h = ground (
  arith,
  leb-rank-plugin plugin_archive s.team_role,
  IsOperable-plugin_action plugin_archive s.plugin refl,
)
Entitled-authorize_user plugin_publish s c k h = ground (
  arith,
  leb-rank-plugin plugin_publish s.team_role,
  IsOperable-plugin_action plugin_publish s.plugin refl,
)
Entitled-authorize_user a s c k h =
    ground (arith, leb-rank-plugin a s.team_role, leb-rank-team a s.team_role)
