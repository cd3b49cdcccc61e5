-- ===== src/Plugins/Creation.antt =====
-- mod/backend/domain/plugin/service.go: `Create`. `id`, `cleanup_id` and `now` are what
-- `service.newID()` and `service.now()` answer in the request.
use marketplace_server.Auth.Action.{
  PluginVisibility, draft, ready, read_visibility, plugin_create, ResourceType,
}
use marketplace_server.Sql.{Engine}
use marketplace_server.Base.{
  String, Bool, Result, if◌then◌else◌, is_empty, ℕ, ok, none, some, err, ◌==◌, not, ◌||◌,
}
use marketplace_server.Database.Error.{StoreError, Check, already_exists, plugin_not_found}
use marketplace_server.Plugins.Step.{
  Service, PluginError, ProvisionedRepository, Request, pure, unavailable, raise, conflict, ◌>>=◌,
  ◌>>◌, attempt, created, on_disk, refuse_if, invalid_input, checked_run,
}
use marketplace_server.Plugins.Store.{Aggregate, find_by_slug, create_aggregate}
use marketplace_server.Auth.Principal.{Principal}
use marketplace_server.Identity.Text.{trim_space}
use marketplace_server.Database.Tx.{Tx}
use marketplace_server.Plugins.Lookup.{PluginView, find_namespace_by_slug, authorize, plugin_view}
use marketplace_server.Database.Tables.{Tables}
use marketplace_server.Database.Statement.{insert}
use marketplace_server.Plugins.Slots.{orphan_cleanups}
use marketplace_server.Plugins.Model.{OrphanCleanupState}
use mathlib.Core.Bool.{false, true}
use marketplace_server.Plugins.Checks.{valid_slug, valid_visibility}
use marketplace_server.Identity.Model.{Namespace}

-- An empty visibility stands for a public plugin.
abbrev pub or_public : String → String
or_public s = if is_empty s then "public" else s

-- The `Aggregate` that a new plugin is stored as.
abbrev pub new_aggregate :
    String → String → String → PluginVisibility → ProvisionedRepository → ℕ → Aggregate
new_aggregate id namespace_id slug visibility provisioned now = record {
  plugin = record {
    id = id;
    namespace_id = namespace_id;
    slug = slug;
    description = "";
    visibility = visibility;
    status = draft;
    archived_from = none;
    default_version_tag = none;
    created_at = now;
    updated_at = now;
  };
  repository = record {
    id = id;
    storage_key = provisioned.identity.storage_key;
    status = ready;
    created_at = now;
    updated_at = now;
  };
}

abbrev pub create_error : StoreError → PluginError
create_error already_exists = conflict
create_error _ = unavailable

-- A plugin with the name must be absent.
abbrev pub absent : {e : Engine} {W : Type 0} → Result StoreError Aggregate → Request e W (Unit {0})
absent (ok _) = raise conflict
absent (err plugin_not_found) = pure tt
absent (err _) = raise unavailable

-- `recordOrphanCleanup`
unfoldable pub record_orphan_cleanup :
    {e : Engine} → String → Aggregate → ℕ → Tx (Tables e) (Unit {0})
record_orphan_cleanup {e = e} cleanup_id a now =
    insert (orphan_cleanups e) (λ c. c.id == cleanup_id)
      (record {
        id = cleanup_id;
        plugin_id = a.plugin.id;
        storage_key = a.repository.storage_key;
        state = OrphanCleanupState.pending;
        attempts = 0;
        safe_error = "";
        next_attempt_at = none;
        created_at = now;
        updated_at = now;
        completed_at = none;
      })

module _ {e : Engine} {W : Type 0} (service : Service e W) where
  -- An error of the write of the cleanup is dropped.
  unfoldable pub clean_unless : Bool → String → Aggregate → ℕ → Request e W (Unit {0})
  clean_unless true cleanup_id a now = pure tt
  clean_unless false cleanup_id a now = do
    _ ← attempt (record_orphan_cleanup cleanup_id a now)
    pure tt

  -- What `Create` does with the repository when the database refused the plugin.
  unfoldable pub compensate :
      Bool → ProvisionedRepository → String → Aggregate → ℕ → Request e W (Unit {0})
  compensate false provisioned cleanup_id a now = pure tt
  compensate true provisioned cleanup_id a now = do
    removed ← on_disk unavailable (λ d. (
      some (service.git.remove_provisioned provisioned d).0,
      (service.git.remove_provisioned provisioned d).1,
    ))
    clean_unless removed cleanup_id a now

  unfoldable pub stored_or_compensated :
      Check → ProvisionedRepository → String → Aggregate → ℕ → Request e W (Unit {0})
  stored_or_compensated none provisioned cleanup_id a now = pure tt
  stored_or_compensated (some x) provisioned cleanup_id a now = do
    compensate (created provisioned) provisioned cleanup_id a now
    raise (create_error x)

  -- The rest of `Create`, after the repository was provisioned.
  unfoldable pub store_new :
      Aggregate → String → ProvisionedRepository → String → ℕ → Request e W PluginView
  store_new a namespace_slug provisioned cleanup_id now = do
    outcome ← checked_run (create_aggregate service.env a)
    stored_or_compensated outcome provisioned cleanup_id a now
    pure (plugin_view namespace_slug a)

  -- The rest of `Create`, after the namespace was found.
  unfoldable pub create_in :
      Namespace
      → Principal
      → String
      → PluginVisibility
      → String
      → String
      → ℕ
      → Request e W PluginView
  create_in ns p name visibility id cleanup_id now = do
    authorize service p plugin_create
        (record { type = ResourceType.namespace; id = ns.id; namespace_id = "" })
    found ← attempt (find_by_slug ns.id name)
    absent found
    provisioned ← on_disk unavailable (service.git.provision (record { id = id; storage_key = id }))
    store_new (new_aggregate id ns.id name visibility provisioned now) ns.slug provisioned
        cleanup_id now

  unfoldable pub create_valid :
      String → Principal → String → PluginVisibility → String → String → ℕ → Request e W PluginView
  create_valid namespace_slug p name visibility id cleanup_id now = do
    ns ← find_namespace_by_slug service namespace_slug
    create_in ns p name visibility id cleanup_id now

  -- `Create`
  unfoldable pub create :
      Principal → String → String → String → String → String → ℕ → Request e W PluginView
  create p namespace_text name_text visibility_text id cleanup_id now = do
    let namespace_slug = trim_space namespace_text
    let name = trim_space name_text
    let visibility = read_visibility (or_public (trim_space visibility_text))
    refuse_if
        (not (valid_slug namespace_slug)
          || not (valid_slug name)
          || not (valid_visibility visibility))
        invalid_input
    create_valid namespace_slug p name visibility id cleanup_id now
