-- ===== src/Plugins/Lookup.antt =====
-- mod/backend/domain/plugin/service.go: finding a plugin, authorizing the caller, and the reads.
use Prim.Native.String.{◌++◌}
use marketplace_server.Base.{Option, String, Bool, some, if◌then◌else◌, ℕ, ◌&&◌, ◌||◌, not, is_some}
use marketplace_server.Plugins.Model.{PluginVersion, VersionStatus, is_deleted, is_available}
use marketplace_server.Plugins.Store.{Aggregate, take_namespace, find_by_slug, find_version}
use marketplace_server.Database.Error.{StoreError}
use marketplace_server.Plugins.Step.{
  PluginError, Service, unavailable, Request, exec, refuse_if, World, forbidden, ◌>>=◌, ◌>>◌,
  lookup_error, gone, not_found, pure,
}
use marketplace_server.Sql.{Engine}
use marketplace_server.Auth.Action.{
  PluginStatus, ResourceRef, PluginVisibility, ResourceType, is_archived, Action,
  RepositoryOperationalStatus, is_ready, plugin_read, is_read_only,
}
use mathlib.Core.Option.{none}
use marketplace_server.Identity.Model.{Namespace}
use marketplace_server.Auth.Principal.{Principal, is_anonymous}
use marketplace_server.Plugins.Checks.{valid_canonical_tag, valid_slug}

-- `PluginView`
pub record PluginView : Type 0 where
  pub namespace : String
  pub name : String
  pub status : PluginStatus
  pub visibility : PluginVisibility
  pub repository_status : RepositoryOperationalStatus
  pub clone_url : String
  pub default_version : Option String
  pub created_at : ℕ
  pub updated_at : ℕ

-- `VersionView`
pub record VersionView : Type 0 where
  pub tag : String
  pub status : VersionStatus
  pub commit_sha : String
  pub published_at : ℕ
  pub updated_at : ℕ

abbrev pub plugin_view : String → Aggregate → PluginView
plugin_view namespace_slug a = record {
  namespace = namespace_slug;
  name = a.plugin.slug;
  status = a.plugin.status;
  visibility = a.plugin.visibility;
  repository_status = a.repository.status;
  clone_url = "/git/" ++ namespace_slug ++ "/" ++ a.plugin.slug ++ ".git";
  default_version = a.plugin.default_version_tag;
  created_at = a.plugin.created_at;
  updated_at = a.plugin.updated_at;
}

abbrev pub or_nothing : Option String → String
or_nothing none = ""
or_nothing (some s) = s

abbrev pub version_view : PluginVersion → VersionView
version_view v = record {
  tag = v.tag;
  status = v.status;
  commit_sha = or_nothing v.commit_sha;
  published_at = v.published_at;
  updated_at = v.updated_at;
}

abbrev pub plugin_resource : Aggregate → ResourceRef
plugin_resource a = record {
  type = ResourceType.plugin;
  id = a.plugin.id;
  namespace_id = a.plugin.namespace_id;
}

-- The states in which a version may not be published or made the default.
abbrev pub is_frozen : Aggregate → Bool
is_frozen a = is_archived a.plugin.status || not (is_ready a.repository.status)

abbrev pub namespace_error : PluginError → StoreError → PluginError
namespace_error missing StoreError.not_found = missing
namespace_error missing _ = unavailable

module _ {e : Engine} {W : Type 0} (service : Service e W) where
  unfoldable pub find_namespace_by_slug : String → Request e W Namespace
  find_namespace_by_slug slug = exec (namespace_error forbidden) (take_namespace slug)

  unfoldable pub exact_aggregate : String → String → Request e W (Namespace × Aggregate)
  exact_aggregate namespace_slug plugin_slug = do
    refuse_if (not (valid_slug namespace_slug) || not (valid_slug plugin_slug)) not_found
    ns ← exec (namespace_error not_found) (take_namespace namespace_slug)
    aggregate ← exec lookup_error (find_by_slug ns.id plugin_slug)
    pure (ns, aggregate)

  abbrev pub is_allowed : Principal → Action → ResourceRef → World e W → Bool
  is_allowed p action resource w = service.authorize p action resource w.tables

  unfoldable pub authorize : Principal → Action → ResourceRef → Request e W (Unit {0})
  authorize p action resource w = refuse_if (not (is_allowed p action resource w)) forbidden w

  unfoldable pub authorize_exact_read : Principal → Aggregate → Request e W (Unit {0})
  authorize_exact_read p a w =
      refuse_if (not (is_allowed p plugin_read (plugin_resource a) w)) not_found w

  -- What a caller hears who may not change a plugin.
  abbrev pub denial : Bool → Bool → PluginError
  denial anonymous readable =
      if anonymous then not_found else if readable then forbidden else not_found

  unfoldable pub authorize_mutation : Principal → Action → Aggregate → Request e W (Unit {0})
  authorize_mutation p action a w =
      refuse_if (not (is_allowed p action (plugin_resource a) w))
        (denial (is_anonymous p) (is_allowed p plugin_read (plugin_resource a) w)) w

  unfoldable pub lock_plugin : String → Request e W (Unit {0})
  lock_plugin id w = refuse_if (not (service.lock_plugin id w)) unavailable w

  -- `Get`
  unfoldable pub get : Principal → String → String → Request e W PluginView
  get p namespace_slug plugin_slug = do
    (ns, a) ← exact_aggregate namespace_slug plugin_slug
    authorize_exact_read p a
    pure (plugin_view ns.slug a)

  -- `browsableAggregate`, which every read of a repository begins with.
  unfoldable pub browsable_aggregate : Principal → String → String → Request e W Aggregate
  browsable_aggregate p namespace_slug plugin_slug = do
    refuse_if (not service.has_browser) unavailable
    (_, a) ← exact_aggregate namespace_slug plugin_slug
    authorize_exact_read p a
    refuse_if (not (is_ready a.repository.status) && not (is_read_only a.repository.status))
        unavailable
    pure a

  -- `GetVersion`
  unfoldable pub get_version : Principal → String → String → String → Request e W VersionView
  get_version p namespace_slug plugin_slug tag = do
    refuse_if (not (valid_canonical_tag tag)) not_found
    (_, a) ← exact_aggregate namespace_slug plugin_slug
    authorize_exact_read p a
    version ← exec lookup_error (find_version a.plugin.id tag)
    refuse_if (is_deleted version.status) gone
    refuse_if (not (is_available version.status) || not (is_some version.commit_sha)) unavailable
    pure (version_view version)
