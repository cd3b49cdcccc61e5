-- ===== src/Policy/Order.antt =====
-- mod/backend/domain/authorization/policy.go: how a decision depends on scopes and roles.
use marketplace_server.Auth.Scope
use marketplace_server.Auth.Principal.{allows as principal_allows, user}
use marketplace_server.Auth.Scope.{ScopeSet, unrestricted_scopes, actions}
use marketplace_server.Base.{◌≡◌, arith, ◌≤◌, true, some, ◌↔◌}
use marketplace_server.Auth.Principal.{Principal}
use marketplace_server.Policy.Authorize.{
  IdentityState, authorize, authorize_user, allowed, IdentityStateReader,
}
use marketplace_server.Auth.Action.{Action, team_create, plugin_read, ResourceRef}
use marketplace_server.Role.{TeamRole}
use marketplace_server.Policy.Matrix.{rank, Entitled}
use marketplace_server.Policy.Rules.{is_known_action}
use marketplace_server.Policy.Exact.{authorize_user-Entitled, Entitled-authorize_user}

abbrev pub with_scopes : Principal → ScopeSet → Principal
with_scopes p scopes = record p { scopes = scopes }

abbrev pub with_role : IdentityState → TeamRole → IdentityState
with_role s role = record s { team_role = role }

-- A user with a credential of given scopes is admitted exactly when the scopes cover the action
-- and the same user with unrestricted scopes is admitted, where the reader of the state looks only
-- at who the user is.
pub authorize_scopes :
    (read : IdentityStateReader) (p : Principal) (scopes : ScopeSet) (a : Action) (r : ResourceRef)
    → p.kind ≡ user
    → read (with_scopes p scopes) r ≡ read (with_scopes p unrestricted_scopes) r
    → (authorize (some read) (with_scopes p scopes) a r ≡ allowed) ↔ (
        (authorize (some read) (with_scopes p unrestricted_scopes) a r ≡ allowed)
        × (Scope.allows scopes a ≡ true))
unfolding authorize principal_allows unrestricted_scopes Scope.allows
authorize_scopes read p scopes a r k e = (λ h. (ground arith, ground arith), λ h. ground arith)

Entitled-mono :
    (a : Action) (s : IdentityState) (role : TeamRole)
    → rank s.team_role ≤ rank role
    → Entitled a s
    → Entitled a (with_role s role)
Entitled-mono team_create s role up h = h
Entitled-mono plugin_read s role up h = ground arith
Entitled-mono _ s role up h = ground arith

-- For a known action, a user who is admitted is still admitted when the role in the team is replaced
-- by one of at least its rank.
pub authorize_user_mono :
    (a : Action) (s : IdentityState) (role : TeamRole)
    → is_known_action a ≡ true
    → rank s.team_role ≤ rank role
    → authorize_user a s ≡ allowed
    → authorize_user a (with_role s role) ≡ allowed
authorize_user_mono a s role known up h =
    let (alive, entitled) = authorize_user-Entitled a s known h in
    Entitled-authorize_user a (with_role s role) known alive (Entitled-mono a s role up entitled)
