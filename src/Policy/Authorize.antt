-- ===== src/Policy/Authorize.antt =====
-- mod/backend/domain/authorization/policy.go: `Authorize`. `ErrDenied` is its only error, so a
-- decision is `allowed` or `denied`.
use marketplace_server.Base.{Bool, ◌&&◌, ◌||◌, not, is_empty, if◌then◌else◌, Option, none, some}
use marketplace_server.Role.{TeamRole}
use marketplace_server.Auth.Action.{
  Action, marketplace_read, plugin_read, team_create, team_list, team_invitation_respond,
  same_action, ResourceRef, PluginAuthorizationFacts,
}
use marketplace_server.Auth.Principal.{Principal, is_anonymous, is_user, allows}
use marketplace_server.Policy.Rules.{
  is_known_action, supports_resource, is_team_action, allows_team_action, allows_team_plugin_action,
  is_plugin_namespace_action, is_plugin_action, allows_public_plugin_read,
  allows_anonymous_plugin_read, allows_plugin_action, is_self_action,
}

pub record IdentityState : Type 0 where
  pub active : Bool
  pub system_admin : Bool
  pub owns_personal_namespace : Bool
  pub owns_resource : Bool
  pub team_role : TeamRole
  pub invitation_target : Bool
  pub plugin : PluginAuthorizationFacts

-- `ReadAuthorizationState`; `none` is any error, which the policy turns into a denial.
abbrev pub IdentityStateReader : Type 0
IdentityStateReader = Principal → ResourceRef → Option IdentityState

pub data Decision : Type 0 where
  allowed denied : Decision

abbrev pub decide : Bool → Decision
decide b = if b then allowed else denied

-- What `Authorize` does with the state of a user that the reader returned.
unfoldable pub authorize_user : Action → IdentityState → Decision
unfolding is_team_action allows_team_action is_plugin_namespace_action is_plugin_action
    allows_team_plugin_action allows_plugin_action allows_public_plugin_read is_self_action
authorize_user action s =
    let by_role =
      s.system_admin || s.owns_personal_namespace || allows_team_plugin_action action s.team_role in
    if not s.active
    then denied
    else if same_action action team_create || same_action action team_list
    then allowed
    else if is_team_action action
    then decide (
        s.system_admin
        || (same_action action team_invitation_respond && s.invitation_target)
        || allows_team_action action s.team_role)
    else if is_plugin_namespace_action action
    then decide by_role
    else if is_plugin_action action
    then (if not (allows_plugin_action action s.plugin)
        then denied
        else if same_action action plugin_read && allows_public_plugin_read s.plugin
        then allowed
        else decide by_role)
    else if s.system_admin
    then allowed
    else if s.owns_resource && is_self_action action
    then allowed
    else decide (s.owns_personal_namespace && same_action action marketplace_read)

-- `Authorize`; the policy may stand without a reader.
unfoldable pub authorize : Option IdentityStateReader → Principal → Action → ResourceRef → Decision
authorize none p action r = denied
authorize (some read_authorization_state) p action r =
    if not (is_known_action action) || not (supports_resource action r)
    then denied
    else if is_anonymous p
    then (if not (same_action action plugin_read)
        then denied
        else elim (read_authorization_state p r) [
          | none ↦ denied
          | some s ↦ decide (allows_anonymous_plugin_read s.plugin)
        ])
    else if not (is_user p) || is_empty p.user_id || not (allows p action)
    then denied
    else elim (read_authorization_state p r) [ none ↦ denied | some s ↦ authorize_user action s ]
