-- ===== src/Plugins/Publishing.antt =====
-- mod/backend/domain/plugin/service.go: `Publish`, and the transaction in which it publishes a tag.
-- `now` is what `service.now()` answers in the request, `Ids` what `service.newID()` does.
use marketplace_server.Base.{
  Bool, Option, String, List, false, if◌then◌else◌, ℕ, ◌&&◌, ◌==◌, ok, some, ◌||◌, err, none, ◌∷◌,
  [], not, eqb,
}
use marketplace_server.Database.Error.{StoreError, database, plugin_conflict}
use marketplace_server.Plugins.Step.{PluginSourceInspection, PluginError}
use marketplace_server.Plugins.Model.{
  PluginVersion, Plugin, VersionHistoryOperation, VersionStatus, available, deleted, is_deleted,
}
use marketplace_server.Platform.{Platform}
use marketplace_server.Auth.Action.{PluginStatus, is_draft, active, is_archived, is_ready}
use marketplace_server.Sql.{Engine}
use marketplace_server.Database.Tx.{Tx, pure, raise, ◌>>=◌, ◌>>◌, raise_if}
use marketplace_server.Plugins.Store.{
  Aggregate, is_unique_constraint_error, is_version, is_plugin, same_plugin_status,
  unresolved_receive_exists,
}
use marketplace_server.Plugins.Checks.{same_bytes}
use marketplace_server.Database.Tables.{Tables}
use mathlib.Core.Option.{none}
use marketplace_server.Database.Statement.{insert, select, update}
use marketplace_server.Plugins.Slots.{
  plugin_version_history, plugin_versions, plugins, repositories,
}
use marketplace_server.Identity.Store.{first_or}
use mathlib.Core.Bool.{true}

pub record Ids : Type 0 where
  pub version : String
  pub history : String
  pub correlation : String

abbrev pub record_not_found : StoreError
record_not_found = database "record not found"

-- Two nullable texts of the source compared by `*a != b` after a nil test.
abbrev pub is_text : Option String → String → Bool
is_text none s = false
is_text (some t) s = t == s

-- What a published version holds of an inspection.
unfoldable pub holds_inspection : PluginSourceInspection → PluginVersion → Bool
holds_inspection i v =
    is_text v.raw_tag_object_id i.raw_tag_object_id
    && is_text v.commit_sha i.commit_object_id
    && is_text v.manifest_digest i.manifest_digest
    && same_bytes v.manifest_snapshot i.manifest_snapshot

abbrev pub new_version : String → String → String → PluginSourceInspection → ℕ → PluginVersion
new_version id plugin_id tag i now = record {
  id = id;
  plugin_id = plugin_id;
  tag = tag;
  status = available;
  raw_tag_object_id = some i.raw_tag_object_id;
  commit_sha = some i.commit_object_id;
  manifest_digest = some i.manifest_digest;
  manifest_snapshot = i.manifest_snapshot;
  published_at = now;
  updated_at = now;
  deleted_at = none;
  created_at = now;
}

-- A deleted version that is published again.
abbrev pub revived : PluginSourceInspection → ℕ → PluginVersion → PluginVersion
revived i now v = record v {
  status = available;
  raw_tag_object_id = some i.raw_tag_object_id;
  commit_sha = some i.commit_object_id;
  manifest_digest = some i.manifest_digest;
  manifest_snapshot = i.manifest_snapshot;
  deleted_at = none;
  published_at = now;
  updated_at = now;
}

abbrev pub clashes_version : PluginVersion → PluginVersion → Bool
clashes_version n o = o.id == n.id || (o.plugin_id == n.plugin_id && o.tag == n.tag)

-- A clash with a unique index is a conflict.
abbrev pub contested : Platform → StoreError → StoreError
contested env x = if is_unique_constraint_error env x then plugin_conflict else x

unfoldable pub or_contested : {S A : Type 0} → Platform → Tx S A → Tx S A
or_contested env m s = elim (m s) [ ok x ↦ ok x | err x ↦ err (contested env x) ]

-- The changes to a plugin that has a published version.
abbrev pub activated : PluginStatus → PluginStatus → PluginStatus
activated current stored = if is_draft current then active else stored

abbrev pub defaulted : Bool → String → Option String → Option String
defaulted make_default tag stored = if make_default then some tag else stored

module _ {e : Engine} where
  -- The rows that the publication of a tag found.
  unfoldable pub publish_new :
      Platform
      → Ids
      → String
      → String
      → PluginSourceInspection
      → ℕ
      → Tx (Tables e) (PluginVersion × Option VersionHistoryOperation)
  publish_new env ids plugin_id tag i now = do
    or_contested env (
        insert (plugin_versions e) (clashes_version (new_version ids.version plugin_id tag i now))
          (new_version ids.version plugin_id tag i now))
    pure (new_version ids.version plugin_id tag i now, some VersionHistoryOperation.publish)

  unfoldable pub revive :
      PluginVersion
      → String
      → String
      → PluginSourceInspection
      → ℕ
      → Tx (Tables e) (PluginVersion × Option VersionHistoryOperation)
  revive version plugin_id tag i now = do
    n ←
        update (plugin_versions e)
          (λ v. v.id == version.id && is_version plugin_id tag v && is_deleted v.status)
          (revived i now)
    raise_if (not (eqb n 1)) plugin_conflict
    pure (revived i now version, some VersionHistoryOperation.restore)

  unfoldable pub publish_again :
      VersionStatus
      → PluginVersion
      → String
      → String
      → PluginSourceInspection
      → ℕ
      → Tx (Tables e) (PluginVersion × Option VersionHistoryOperation)
  publish_again deleted version plugin_id tag i now = revive version plugin_id tag i now
  publish_again available version plugin_id tag i now = do
    raise_if (not (holds_inspection i version)) plugin_conflict
    pure (version, none)
  publish_again (VersionStatus.unlisted _) version plugin_id tag i now = raise plugin_conflict

  unfoldable pub publish_version :
      Platform
      → Ids
      → List PluginVersion
      → String
      → String
      → PluginSourceInspection
      → ℕ
      → Tx (Tables e) (PluginVersion × Option VersionHistoryOperation)
  publish_version env ids [] plugin_id tag i now = publish_new env ids plugin_id tag i now
  publish_version env ids (version ∷ _) plugin_id tag i now =
      publish_again version.status version plugin_id tag i now

  unfoldable pub note_history :
      Option VersionHistoryOperation
      → Ids
      → String
      → String
      → PluginSourceInspection
      → ℕ
      → Tx (Tables e) (Unit {0})
  note_history none ids plugin_id tag i now = pure tt
  note_history (some operation) ids plugin_id tag i now =
      insert (plugin_version_history e) (λ h. h.id == ids.history)
        (record {
          id = ids.history;
          plugin_id = plugin_id;
          tag = tag;
          operation = operation;
          old_commit_sha = none;
          new_commit_sha = some i.commit_object_id;
          intent_id = none;
          correlation_id = ids.correlation;
          created_at = now;
        })

  -- The update of the plugin, when there is something to change.
  unfoldable pub touch_plugin :
      Bool → Bool → Plugin → String → String → String → ℕ → Tx (Tables e) (Unit {0})
  touch_plugin false make_default current namespace_id plugin_id tag now = pure tt
  touch_plugin true make_default current namespace_id plugin_id tag now = do
    n ←
        update (plugins e)
          (λ p. is_plugin namespace_id plugin_id p && same_plugin_status p.status current.status)
          (λ p. record p {
            status = activated current.status p.status;
            default_version_tag = defaulted make_default tag p.default_version_tag;
            updated_at = now;
          })
    raise_if (not (eqb n 1)) plugin_conflict

  -- The transaction of `Publish`.
  unfoldable pub publish_body :
      Platform
      → Ids
      → String
      → Aggregate
      → String
      → Bool
      → PluginSourceInspection
      → ℕ
      → Tx (Tables e) PluginVersion
  publish_body env ids namespace_id a tag make_default i now = do
    rows ← select (plugins e) (is_plugin namespace_id a.plugin.id)
    current ← first_or record_not_found rows
    stored ← select (repositories e) (λ r. r.id == a.repository.id)
    repository ← first_or record_not_found stored
    raise_if (is_archived current.status || not (is_ready repository.status)) plugin_conflict
    unresolved ← unresolved_receive_exists a.plugin.id
    raise_if unresolved plugin_conflict
    found ← select (plugin_versions e) (is_version a.plugin.id tag)
    (version, operation) ← publish_version env ids found a.plugin.id tag i now
    note_history operation ids a.plugin.id tag i now
    touch_plugin
        (is_draft current.status || (make_default && not (is_text current.default_version_tag tag)))
        (make_default && not (is_text current.default_version_tag tag)) current namespace_id
        a.plugin.id tag now
    pure version

-- What `Publish` makes of an error of its transaction.
abbrev pub publish_error : StoreError → PluginError
publish_error plugin_conflict = PluginError.conflict
publish_error _ = PluginError.unavailable
