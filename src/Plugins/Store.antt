-- ===== src/Plugins/Store.antt =====
-- mod/backend/domain/plugin/repository.go: plugins with their repositories, and the default version.
use marketplace_server.Database.Tx.{Tx, pure, ◌>>=◌, ◌>>◌, transaction, raise_if}
use marketplace_server.Database.Statement.{select, insert, update, join, select_count}
use marketplace_server.Plugins.Slots.{plugins, repositories, plugin_versions, receive_intents}
use marketplace_server.Plugins.Model.{
  Plugin, Repository, PluginVersion, is_available, ReceiveIntent, is_prepared, is_finalizing,
  is_manual_required,
}
use marketplace_server.Base.{
  Option, String, Bool, ok, ℕ, err, false, if◌then◌else◌, is_empty, ◌&&◌, ◌==◌, ◌||◌, not, some,
  eqb, is_some, Result,
}
use marketplace_server.Auth.Action.{PluginStatus, is_archived, plugin_status_spelling}
use marketplace_server.Platform.{Platform}
use marketplace_server.Sql.{Engine}
use marketplace_server.Database.Error.{
  StoreError, Check, database, already_exists, invalid_scope, plugin_not_found,
  version_not_available,
}
use marketplace_server.Database.Tables.{Tables}
use mathlib.Core.Bool.{true}
use marketplace_server.Identity.Store.{first_or, namespaces}
use marketplace_server.Identity.Text.{to_lower, trim_space}
use mathlib.Core.Option.{none}
use marketplace_server.Identity.Lock.{contains}
use marketplace_server.Identity.Model.{Namespace}

pub record Aggregate : Type 0 where
  pub plugin : Plugin
  pub repository : Repository

-- `aggregateFromRecord`, of a row of the join.
abbrev pub aggregate_from_record : Plugin × Repository → Aggregate
aggregate_from_record (p, r) = record { plugin = p; repository = record r { id = p.id } }

abbrev pub is_blank : String → Bool
is_blank s = is_empty (trim_space s)

-- WHERE namespace_id = ? AND id = ?
abbrev pub is_plugin : String → String → Plugin → Bool
is_plugin namespace_id id p = p.namespace_id == namespace_id && p.id == id

abbrev pub same_plugin_status : PluginStatus → PluginStatus → Bool
same_plugin_status a b = plugin_status_spelling a == plugin_status_spelling b

abbrev pub clashes_plugin : Plugin → Plugin → Bool
clashes_plugin n o = o.id == n.id || (o.namespace_id == n.namespace_id && o.slug == n.slug)

abbrev pub clashes_repository : Repository → Repository → Bool
clashes_repository n o = o.id == n.id || o.storage_key == n.storage_key

abbrev pub is_version : String → String → PluginVersion → Bool
is_version plugin_id tag v = v.plugin_id == plugin_id && v.tag == tag

abbrev pub is_tag : Option String → String → Bool
is_tag none tag = false
is_tag (some t) tag = t == tag

-- `isUniqueConstraintError`
unfoldable pub is_unique_constraint_error : Platform → StoreError → Bool
is_unique_constraint_error env (database m) =
    let message = to_lower env m in
    contains message "unique constraint" || contains message "duplicate key"
is_unique_constraint_error env _ = false

abbrev pub taken : Platform → StoreError → StoreError
taken env x = if is_unique_constraint_error env x then already_exists else x

unfoldable pub or_taken : {S A : Type 0} → Platform → Tx S A → Tx S A
or_taken env m s = elim (m s) [ ok x ↦ ok x | err x ↦ err (taken env x) ]

module _ {e : Engine} where
  unfoldable pub create_aggregate_body : Platform → Aggregate → Tx (Tables e) (Unit {0})
  create_aggregate_body env a = do
    or_taken env (insert (plugins e) (clashes_plugin a.plugin) a.plugin)
    or_taken env (insert (repositories e) (clashes_repository a.repository) a.repository)

  -- `Create`
  unfoldable pub create_aggregate : Platform → Aggregate → Tables e → Check × Tables e
  unfolding create_aggregate_body
  create_aggregate env a s =
      if is_blank a.plugin.namespace_id
        || is_blank a.plugin.id
        || is_blank a.plugin.slug
        || not (a.repository.id == a.plugin.id)
        || is_blank a.repository.storage_key
      then (some invalid_scope, s)
      else transaction (create_aggregate_body env a) s

  -- `FindBySlug`
  unfoldable pub find_by_slug : String → String → Tx (Tables e) Aggregate
  find_by_slug namespace_id slug = do
    raise_if (is_blank namespace_id || is_blank slug) invalid_scope
    found ←
        join (plugins e) (repositories e)
          (λ p r. r.id == p.id && p.namespace_id == namespace_id && p.slug == slug)
    row ← first_or plugin_not_found found
    pure (aggregate_from_record row)

  -- `FindVersion`
  unfoldable pub find_version : String → String → Tx (Tables e) PluginVersion
  find_version plugin_id tag = do
    raise_if (is_blank plugin_id || is_blank tag) invalid_scope
    found ← select (plugin_versions e) (is_version plugin_id tag)
    first_or plugin_not_found found

  unfoldable pub load_default_mutation_plugin : String → String → Tx (Tables e) Plugin
  load_default_mutation_plugin namespace_id plugin_id = do
    found ← select (plugins e) (is_plugin namespace_id plugin_id)
    first_or plugin_not_found found

  -- The guarded write of `default_version_tag`.
  unfoldable pub write_default :
      Plugin → String → String → Option String → ℕ → Tx (Tables e) (Unit {0})
  write_default plugin namespace_id plugin_id tag now = do
    n ←
        update (plugins e)
          (λ p. is_plugin namespace_id plugin_id p && same_plugin_status p.status plugin.status)
          (λ p. record p { default_version_tag = tag; updated_at = now })
    raise_if (not (eqb n 1)) version_not_available

  unfoldable pub set_unless :
      Bool → Plugin → String → String → Option String → ℕ → Tx (Tables e) (Unit {0})
  set_unless true plugin namespace_id plugin_id tag now = pure tt
  set_unless false plugin namespace_id plugin_id tag now =
      write_default plugin namespace_id plugin_id tag now

  unfoldable pub set_default_version_body : String → String → String → ℕ → Tx (Tables e) (Unit {0})
  set_default_version_body namespace_id plugin_id tag now = do
    plugin ← load_default_mutation_plugin namespace_id plugin_id
    raise_if (is_archived plugin.status) version_not_available
    found ← select (plugin_versions e) (λ v. is_version plugin_id tag v && is_available v.status)
    first_or version_not_available found
    set_unless (is_tag plugin.default_version_tag tag) plugin namespace_id plugin_id (some tag) now

  -- `SetDefaultVersion` of repository.go; `now` is the time of the call.
  unfoldable pub set_default_version : String → String → String → ℕ → Tables e → Check × Tables e
  unfolding set_default_version_body
  set_default_version namespace_id plugin_id tag now s =
      if is_blank namespace_id || is_blank plugin_id || is_blank tag
      then (some invalid_scope, s)
      else transaction (set_default_version_body namespace_id plugin_id tag now) s

  unfoldable pub clear_default_version_body : String → String → ℕ → Tx (Tables e) (Unit {0})
  clear_default_version_body namespace_id plugin_id now = do
    plugin ← load_default_mutation_plugin namespace_id plugin_id
    raise_if (is_archived plugin.status) version_not_available
    set_unless (not (is_some plugin.default_version_tag)) plugin namespace_id plugin_id none now

  -- `ClearDefaultVersion` of repository.go
  unfoldable pub clear_default_version : String → String → ℕ → Tables e → Check × Tables e
  unfolding clear_default_version_body
  clear_default_version namespace_id plugin_id now s =
      if is_blank namespace_id || is_blank plugin_id
      then (some invalid_scope, s)
      else transaction (clear_default_version_body namespace_id plugin_id now) s

abbrev pub is_unresolved : String → ReceiveIntent → Bool
is_unresolved plugin_id i =
    i.plugin_id == plugin_id
    && (is_prepared i.state || is_finalizing i.state || is_manual_required i.state)

module _ {e : Engine} where
  -- SELECT … FROM namespaces WHERE slug = ?
  unfoldable pub take_namespace : String → Tx (Tables e) Namespace
  take_namespace slug = do
    found ← select (namespaces e) (λ n. n.slug == slug)
    first_or StoreError.not_found found

  abbrev pub counted :
      Tables e → Result StoreError (ℕ × Tables e) → Result StoreError (Bool × Tables e)
  counted s (ok (n, s')) = ok (not (eqb n 0), s')
  counted s (err x) = ok (true, s)

  -- `unresolvedReceiveExists`; an error counts as one that exists.
  unfoldable pub unresolved_receive_exists : String → Tx (Tables e) Bool
  unresolved_receive_exists plugin_id s =
      counted s (select_count (receive_intents e) (is_unresolved plugin_id) s)
