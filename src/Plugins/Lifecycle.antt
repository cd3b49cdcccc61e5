-- ===== src/Plugins/Lifecycle.antt =====
-- mod/backend/domain/plugin/service.go: archiving and restoring a plugin, its visibility, and its
-- default version. `now` is what `service.now()` answers in the request.
use marketplace_server.Auth.Action.{
  PluginStatus, PluginVisibility, is_draft, visibility_spelling, Action, is_active, archived,
  plugin_archive, is_archived, plugin_publish,
}
use marketplace_server.Plugins.Step.{
  ◌>>=◌, ◌>>◌, exec, refuse_if, run, as_unavailable, default_error, invalid_input, lookup_error,
  not_found, pure, conflict, raise,
}
use marketplace_server.Base.{Option, Bool, false, String, some, ℕ, ◌==◌, ◌||◌, ◌&&◌, not, eqb}
use marketplace_server.Sql.{Engine}
use marketplace_server.Plugins.Step.{Service, Request, pure, raise}
use marketplace_server.Auth.Principal.{Principal}
use marketplace_server.Plugins.Model.{Plugin}
use marketplace_server.Identity.Model.{Namespace, conflict, not_found}
use mathlib.Core.Option.{none}
use marketplace_server.Plugins.Store.{
  Aggregate, same_plugin_status, is_plugin, clear_default_version, set_default_version,
  find_by_slug, unresolved_receive_exists,
}
use marketplace_server.Plugins.Lookup.{exact_aggregate, authorize_mutation, lock_plugin, is_frozen}
use marketplace_server.Plugins.Checks.{valid_canonical_tag, valid_visibility}
use marketplace_server.Database.Statement.{update}
use marketplace_server.Plugins.Slots.{plugins}
use mathlib.Core.Bool.{true}

-- A status that archiving may leave and restoring go back to.
abbrev pub is_live : PluginStatus → Bool
is_live s = is_draft s || is_active s

abbrev pub is_restorable : Option PluginStatus → Bool
is_restorable none = false
is_restorable (some s) = is_live s

abbrev pub is_archived_from : PluginStatus → Option PluginStatus → Bool
is_archived_from s none = false
is_archived_from s (some o) = same_plugin_status o s

abbrev pub same_visibility : PluginVisibility → PluginVisibility → Bool
same_visibility a b = visibility_spelling a == visibility_spelling b

module _ {e : Engine} {W : Type 0} (service : Service e W) where
  -- The plugin of a request that changes it, found, authorized, locked and read again.
  unfoldable pub locked_aggregate :
      Principal → Action → String → String → Request e W (Namespace × Aggregate)
  locked_aggregate p action namespace_slug plugin_slug = do
    (ns, first) ← exact_aggregate service namespace_slug plugin_slug
    authorize_mutation service p action first
    lock_plugin service first.plugin.id
    a ← exec lookup_error (find_by_slug ns.id plugin_slug)
    pure (ns, a)

  -- A guarded update that must have matched exactly one plugin.
  unfoldable pub update_one : (Plugin → Bool) → (Plugin → Plugin) → Request e W (Unit {0})
  update_one matches change = do
    n ← exec as_unavailable (update (plugins e) matches change)
    refuse_if (not (eqb n 1)) conflict

  unfoldable pub archive_unless : Bool → Namespace → Plugin → ℕ → Request e W (Unit {0})
  archive_unless true ns plugin now = pure tt
  archive_unless false ns plugin now = do
    refuse_if (not (is_live plugin.status)) conflict
    update_one (λ p. is_plugin ns.id plugin.id p && same_plugin_status p.status plugin.status)
        (λ p. record p { status = archived; archived_from = some plugin.status; updated_at = now })

  -- `Archive`
  unfoldable pub archive : Principal → String → String → ℕ → Request e W (Unit {0})
  archive p namespace_slug plugin_slug now = do
    (ns, a) ← locked_aggregate p plugin_archive namespace_slug plugin_slug
    archive_unless (is_archived a.plugin.status) ns a.plugin now

  unfoldable pub restore_to : Option PluginStatus → Namespace → Plugin → ℕ → Request e W (Unit {0})
  restore_to none ns plugin now = raise conflict
  restore_to (some original) ns plugin now = do
    refuse_if (not (is_archived plugin.status) || not (is_live original)) conflict
    update_one
        (λ p.
          is_plugin ns.id plugin.id p
          && same_plugin_status p.status archived
          && is_archived_from original p.archived_from)
        (λ p. record p { status = original; archived_from = none; updated_at = now })

  -- `Restore`
  unfoldable pub restore : Principal → String → String → ℕ → Request e W (Unit {0})
  restore p namespace_slug plugin_slug now = do
    (ns, a) ← locked_aggregate p plugin_archive namespace_slug plugin_slug
    restore_to a.plugin.archived_from ns a.plugin now

  unfoldable pub show_unless :
      Bool → Namespace → Plugin → PluginVisibility → ℕ → Request e W (Unit {0})
  show_unless true ns plugin visibility now = pure tt
  show_unless false ns plugin visibility now =
      update_one (λ p. is_plugin ns.id plugin.id p && not (same_plugin_status p.status archived))
        (λ p. record p { visibility = visibility; updated_at = now })

  -- `SetVisibility`
  unfoldable pub set_visibility :
      Principal → String → String → PluginVisibility → ℕ → Request e W (Unit {0})
  set_visibility p namespace_slug plugin_slug visibility now = do
    refuse_if (not (valid_visibility visibility)) invalid_input
    (ns, a) ← locked_aggregate p plugin_archive namespace_slug plugin_slug
    refuse_if (is_archived a.plugin.status) conflict
    show_unless (same_visibility a.plugin.visibility visibility) ns a.plugin visibility now

  -- What `SetDefaultVersion` and `ClearDefaultVersion` do before the repository is asked: here the
  -- plugin is not read again.
  unfoldable pub default_target : Principal → String → String → Request e W (Namespace × Aggregate)
  default_target p namespace_slug plugin_slug = do
    (ns, a) ← exact_aggregate service namespace_slug plugin_slug
    authorize_mutation service p plugin_publish a
    refuse_if (is_frozen a) conflict
    lock_plugin service a.plugin.id
    unresolved ← exec as_unavailable (unresolved_receive_exists a.plugin.id)
    refuse_if unresolved conflict
    pure (ns, a)

  -- `Service.SetDefaultVersion`
  unfoldable pub choose_default : Principal → String → String → String → ℕ → Request e W (Unit {0})
  choose_default p namespace_slug plugin_slug tag now = do
    refuse_if (not (valid_canonical_tag tag)) not_found
    (ns, a) ← default_target p namespace_slug plugin_slug
    run default_error (set_default_version ns.id a.plugin.id tag now)

  -- `Service.ClearDefaultVersion`
  unfoldable pub drop_default : Principal → String → String → ℕ → Request e W (Unit {0})
  drop_default p namespace_slug plugin_slug now = do
    (ns, a) ← default_target p namespace_slug plugin_slug
    run default_error (clear_default_version ns.id a.plugin.id now)
