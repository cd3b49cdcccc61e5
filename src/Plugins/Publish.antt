-- ===== src/Plugins/Publish.antt =====
-- mod/backend/domain/plugin/service.go: `Publish`, around its transaction; and the requests that
-- change plugins, as commands.
use marketplace_server.Plugins.Step.{
  ◌>>=◌, ◌>>◌, pure, conflict, Service, Request, PluginSourceInspection, on_disk, refuse_if,
  invalid_input, unavailable, exec, lookup_error,
}
use marketplace_server.Auth.Action.{PluginVisibility, plugin_publish}
use marketplace_server.Base.{String, Bool, ℕ, not}
use marketplace_server.Sql.{Engine}
use marketplace_server.Plugins.Publishing.{Ids, publish_error, publish_body}
use marketplace_server.Plugins.Store.{Aggregate, find_by_slug}
use marketplace_server.Auth.Principal.{Principal}
use marketplace_server.Plugins.Lookup.{
  VersionView, exact_aggregate, authorize_exact_read, is_frozen, authorize, plugin_resource,
  lock_plugin, version_view,
}
use marketplace_server.Plugins.Checks.{valid_canonical_tag, valid_inspection, same_inspection}
use marketplace_server.Plugins.Creation.{create}
use marketplace_server.Plugins.Lifecycle.{
  archive, restore, set_visibility, choose_default, drop_default,
}
use marketplace_server.Identity.Model.{Namespace}

-- The input of `Publish`, with what `service.newID()` and `service.now()` answer in the request.
pub record PublishInput : Type 0 where
  pub tag : String
  pub make_default : Bool
  pub ids : Ids
  pub now : ℕ

module _ {e : Engine} {W : Type 0} (service : Service e W) where
  -- One call of the inspector, with the check of what it answers.
  unfoldable pub inspect : Aggregate → String → Request e W PluginSourceInspection
  inspect a tag = do
    i ← on_disk conflict (service.git.inspect a.repository.id tag a.plugin.slug)
    refuse_if (not (valid_inspection i)) unavailable
    pure i

  -- Two calls, which must answer the same.
  unfoldable pub confirmed_inspection : Aggregate → String → Request e W PluginSourceInspection
  confirmed_inspection a tag = do
    inspection ← inspect a tag
    confirmed ← inspect a tag
    refuse_if (not (same_inspection inspection confirmed)) conflict
    pure confirmed

  -- The plugin that a version is published of, found, authorized, locked and read again.
  unfoldable pub publish_target : Principal → String → String → Request e W (Namespace × Aggregate)
  publish_target p namespace_slug plugin_slug = do
    (ns, first) ← exact_aggregate service namespace_slug plugin_slug
    authorize_exact_read service p first
    refuse_if (is_frozen first) conflict
    authorize service p plugin_publish (plugin_resource first)
    lock_plugin service first.plugin.id
    a ← exec lookup_error (find_by_slug ns.id plugin_slug)
    refuse_if (is_frozen a) conflict
    pure (ns, a)

  -- The rest of `Publish`, of the plugin that was found.
  unfoldable pub publish_at : Namespace × Aggregate → PublishInput → Request e W VersionView
  publish_at (ns, a) input = do
    inspection ← confirmed_inspection a input.tag
    version ← exec publish_error (
        publish_body service.env input.ids ns.id a input.tag input.make_default inspection
          input.now)
    pure (version_view version)

  unfoldable pub publish_valid :
      Principal → String → String → PublishInput → Request e W VersionView
  publish_valid p namespace_slug plugin_slug input = do
    found ← publish_target p namespace_slug plugin_slug
    publish_at found input

  -- `Publish`
  unfoldable pub publish : Principal → String → String → PublishInput → Request e W VersionView
  publish p namespace_slug plugin_slug input = do
    refuse_if (not (valid_canonical_tag input.tag)) invalid_input
    refuse_if (not service.has_inspector) unavailable
    publish_valid p namespace_slug plugin_slug input

pub data PluginRequest : Type 0 where
  creation : String → String → String → PluginRequest
  archival restoral : PluginRequest
  exposure : PluginVisibility → PluginRequest
  publication : PublishInput → PluginRequest
  default_choice : String → PluginRequest
  default_removal : PluginRequest

module _ {e : Engine} {W : Type 0} (service : Service e W) where
  -- A request of a principal about the plugin with the given names at a time; what it answers is not
  -- kept. A plugin is created with the visibility and the identifiers of the request.
  unfoldable pub perform : Principal → String → String → ℕ → PluginRequest → Request e W (Unit {0})
  perform p ns slug now (creation visibility id cleanup_id) =
      create service p ns slug visibility id cleanup_id now >> pure tt
  perform p ns slug now archival = archive service p ns slug now
  perform p ns slug now restoral = restore service p ns slug now
  perform p ns slug now (exposure visibility) = set_visibility service p ns slug visibility now
  perform p ns slug now (publication input) = publish service p ns slug input >> pure tt
  perform p ns slug now (default_choice tag) = choose_default service p ns slug tag now
  perform p ns slug now default_removal = drop_default service p ns slug now
