-- ===== src/Examples/Policies.antt =====
-- The policy at one user and one plugin.
use marketplace_server.Auth.Scope
use marketplace_server.Auth.Principal.{Principal, PrincipalKind, CredentialKind}
use marketplace_server.Auth.Action.{
  private, active, ready, plugin_read, plugin_write, plugin_publish, PluginAuthorizationFacts,
  ResourceRef, ResourceType,
}
use marketplace_server.Auth.Scope.{
  clone_scopes, restricted_scopes, allows-clone_scopes, unrestricted_scopes,
}
use marketplace_server.Policy.Authorize.{
  IdentityState, IdentityStateReader, authorize, authorize_user, allowed, denied,
}
use marketplace_server.Policy.Rules.{is_known_action}
use marketplace_server.Base.{◌≡◌, some, true, ◌∷◌, [], false, refl, ◌↔◌, arith}
use marketplace_server.Policy.Order.{with_role, with_scopes, authorize_user_mono, authorize_scopes}
use marketplace_server.Role.{maintainer, developer}
use marketplace_server.Policy.Admission.{Permits, authorize-iff-Permits}

abbrev some_plugin : PluginAuthorizationFacts
some_plugin = record { visibility = private; status = active; repository_status = ready }

abbrev developer_state : IdentityState
developer_state = record {
  active = true;
  system_admin = false;
  owns_personal_namespace = false;
  owns_resource = false;
  team_role = developer;
  invitation_target = false;
  plugin = some_plugin;
}

abbrev read_developer : IdentityStateReader
read_developer p r = some developer_state

abbrev ann : Principal
ann = record {
  kind = PrincipalKind.user;
  user_id = "ann";
  username = "ann";
  credential = CredentialKind.pat;
  scopes = restricted_scopes (plugin_read ∷ plugin_write ∷ []);
}

abbrev plugin_ref : ResourceRef
plugin_ref = record { type = ResourceType.plugin; id = "p"; namespace_id = "n" }

authorize-iff-Permits_example :
    (authorize (some read_developer) ann plugin_write plugin_ref ≡ allowed)
    ↔ Permits read_developer ann plugin_write plugin_ref
authorize-iff-Permits_example = authorize-iff-Permits read_developer ann plugin_write plugin_ref

authorize_scopes_example :
    (authorize (some read_developer) (with_scopes ann ann.scopes) plugin_write plugin_ref ≡ allowed)
    ↔ ((authorize
            (some read_developer)
            (with_scopes ann unrestricted_scopes)
            plugin_write
            plugin_ref
          ≡ allowed)
        × (Scope.allows ann.scopes plugin_write ≡ true))
authorize_scopes_example =
    authorize_scopes read_developer ann ann.scopes plugin_write plugin_ref refl refl

developer_writes : authorize_user plugin_write developer_state ≡ allowed
unfolding authorize_user
developer_writes = refl

developer_publishes : authorize_user plugin_publish developer_state ≡ denied
unfolding authorize_user
developer_publishes = refl

knows_write : is_known_action plugin_write ≡ true
unfolding is_known_action
knows_write = refl

authorize_user_mono_example :
    authorize_user plugin_write (with_role developer_state maintainer) ≡ allowed
authorize_user_mono_example =
    authorize_user_mono plugin_write developer_state maintainer knows_write (omega arith)
      developer_writes

allows-clone_scopes_example :
    Scope.allows (clone_scopes ann.scopes) plugin_read ≡ Scope.allows ann.scopes plugin_read
allows-clone_scopes_example = allows-clone_scopes ann.scopes plugin_read
