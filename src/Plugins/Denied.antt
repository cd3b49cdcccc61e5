-- ===== src/Plugins/Denied.antt =====
-- mod/backend/domain/plugin/service.go: what a principal whom the authorizer refuses does: nothing.
use marketplace_server.Plugins.Creation.{create, create_valid, create_in}
use marketplace_server.Plugins.Publish.{
  publish, publish_valid, perform, publish_target, PluginRequest, creation, exposure, publication,
  default_choice, archival, restoral, default_removal,
}
use marketplace_server.Plugins.Lifecycle.{
  archive, restore, default_target, locked_aggregate, set_visibility, choose_default, drop_default,
}
use marketplace_server.Plugins.Step.{◌>>=◌, Service, World, exec, PluginError}
use marketplace_server.Plugins.Lookup.{
  authorize, find_namespace_by_slug, authorize_exact_read, authorize_mutation, exact_aggregate,
  is_allowed, plugin_resource,
}
use marketplace_server.Database.Tx
use marketplace_server.Sql.{Engine}
use marketplace_server.Auth.Principal.{Principal}
use marketplace_server.Auth.Action.{
  Action, plugin_publish, plugin_archive, plugin_create, ResourceType,
}
use marketplace_server.Base.{String, Result, ℕ, Bool, ◌≡◌, arith, false, ok, err, true}
use marketplace_server.Plugins.Store.{take_namespace, Aggregate}
use marketplace_server.Database.Statement.{select}
use marketplace_server.Identity.Text.{trim_space}
use marketplace_server.Identity.Model.{Namespace}
use marketplace_server.Plugins.Kept.{exact_aggregate-state}

abbrev pub is_refused : {A : Type 0} → Result PluginError A → Bool
is_refused (ok _) = false
is_refused (err _) = true

module _ {e : Engine} {W : Type 0} (service : Service e W) where
  -- The authorizer's answer to an action on the plugin that the names stand for.
  abbrev pub may_act :
      Principal → Action → World e W → Result PluginError (Namespace × Aggregate) → Bool
  may_act p action w (ok (_, a)) = is_allowed service p action (plugin_resource a) w
  may_act p action w (err _) = false

  abbrev pub may_create : Principal → World e W → Result PluginError Namespace → Bool
  may_create p w (ok n) =
      is_allowed service p plugin_create
        (record { type = ResourceType.namespace; id = n.id; namespace_id = "" }) w
  may_create p w (err _) = false

  -- Whether the authorizer admits a request.
  unfoldable pub is_admitted : Principal → String → String → PluginRequest → World e W → Bool
  is_admitted p ns slug (creation _ _ _) w =
      may_create p w (find_namespace_by_slug service (trim_space ns) w).0
  is_admitted p ns slug archival w =
      may_act p plugin_archive w (exact_aggregate service ns slug w).0
  is_admitted p ns slug restoral w =
      may_act p plugin_archive w (exact_aggregate service ns slug w).0
  is_admitted p ns slug (exposure _) w =
      may_act p plugin_archive w (exact_aggregate service ns slug w).0
  is_admitted p ns slug (publication _) w =
      may_act p plugin_publish w (exact_aggregate service ns slug w).0
  is_admitted p ns slug (default_choice _) w =
      may_act p plugin_publish w (exact_aggregate service ns slug w).0
  is_admitted p ns slug default_removal w =
      may_act p plugin_publish w (exact_aggregate service ns slug w).0

  locked_denied :
      (p : Principal) (action : Action) (ns slug : String) (w : World e W)
      → may_act p action w (exact_aggregate service ns slug w).0 ≡ false
      → (is_refused (locked_aggregate service p action ns slug w).0 ≡ true)
        × ((locked_aggregate service p action ns slug w).1 ≡ w)
  unfolding locked_aggregate authorize_mutation ◌>>=◌
  locked_denied p action ns slug w h = ground (arith, exact_aggregate-state service ns slug w)

  default_denied :
      (p : Principal) (ns slug : String) (w : World e W)
      → may_act p plugin_publish w (exact_aggregate service ns slug w).0 ≡ false
      → (is_refused (default_target service p ns slug w).0 ≡ true)
        × ((default_target service p ns slug w).1 ≡ w)
  unfolding default_target authorize_mutation ◌>>=◌
  default_denied p ns slug w h = ground (arith, exact_aggregate-state service ns slug w)

  publish_denied :
      (p : Principal) (ns slug : String) (w : World e W)
      → may_act p plugin_publish w (exact_aggregate service ns slug w).0 ≡ false
      → (is_refused (publish_target service p ns slug w).0 ≡ true)
        × ((publish_target service p ns slug w).1 ≡ w)
  unfolding publish_target authorize_exact_read authorize ◌>>=◌
  publish_denied p ns slug w h = ground (arith, exact_aggregate-state service ns slug w)

  find_namespace-state :
      (slug : String) (w : World e W) → (find_namespace_by_slug service slug w).1 ≡ w
  unfolding find_namespace_by_slug exec take_namespace Tx.◌>>=◌ select
  find_namespace-state slug w = ground arith

  create_denied :
      (p : Principal) (ns slug visibility id cleanup_id : String) (now : ℕ) (w : World e W)
      → may_create p w (find_namespace_by_slug service (trim_space ns) w).0 ≡ false
      → (is_refused (create service p ns slug visibility id cleanup_id now w).0 ≡ true)
        × ((create service p ns slug visibility id cleanup_id now w).1 ≡ w)
  unfolding create create_valid create_in authorize ◌>>=◌
  create_denied p ns slug visibility id cleanup_id now w h =
      ground (arith, find_namespace-state (trim_space ns) w)

  -- A request to create or to change a plugin that the authorizer does not admit, or that names no
  -- plugin or namespace, is answered with an error, and leaves the database and the Git storage as
  -- they were.
  pub plugin_request_denied :
      (p : Principal) (ns slug : String) (now : ℕ) (request : PluginRequest) (w : World e W)
      → is_admitted p ns slug request w ≡ false
      → (is_refused (perform service p ns slug now request w).0 ≡ true)
        × ((perform service p ns slug now request w).1 ≡ w)
  unfolding is_admitted perform archive restore set_visibility publish publish_valid choose_default
      drop_default ◌>>=◌
  plugin_request_denied p ns slug now (creation visibility id cleanup_id) w h =
      ground (arith, create_denied p ns slug visibility id cleanup_id now w h)
  plugin_request_denied p ns slug now archival w h =
      ground (arith, locked_denied p plugin_archive ns slug w h)
  plugin_request_denied p ns slug now restoral w h =
      ground (arith, locked_denied p plugin_archive ns slug w h)
  plugin_request_denied p ns slug now (exposure visibility) w h =
      ground (arith, locked_denied p plugin_archive ns slug w h)
  plugin_request_denied p ns slug now (publication input) w h =
      ground (arith, publish_denied p ns slug w h)
  plugin_request_denied p ns slug now (default_choice tag) w h =
      ground (arith, default_denied p ns slug w h)
  plugin_request_denied p ns slug now default_removal w h =
      ground (arith, default_denied p ns slug w h)
