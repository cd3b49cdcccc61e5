-- ===== src/Plugins/Invariant.antt =====
-- mod/backend/domain/plugin/service.go: the writes that its requests make, and that a property of the
-- rows which these writes keep is kept by every request.
use marketplace_server.Base.{
  inl, inr, arith, [], ◌∷◌, ◌++◌, Bool, String, if◌then◌else◌, ◌≡◌, Option, true, ℕ, subst, not,
  sym, Bool-cases, is_some, any, ◌||◌, ◌==◌, false, none, some,
}
use marketplace_server.Plugins.Model.{
  Plugin, Repository, RepositoryOrphanCleanup, PluginVersionHistory, PluginVersion, is_deleted,
}
use marketplace_server.Database.Tables.{Rows, Tables, view}
use marketplace_server.Sql.{Engine, map_where}
use marketplace_server.Plugins.Store.{
  clear_default_version, create_aggregate, create_aggregate_body, load_default_mutation_plugin,
  or_taken, set_default_version, set_unless, write_default, clear_default_version_body,
  set_default_version_body, Aggregate, clashes_plugin, is_blank,
}
use marketplace_server.Plugins.Publishing.{or_contested, clashes_version}
use marketplace_server.Plugins.Creation.{record_orphan_cleanup}
use marketplace_server.Plugins.Kept.{
  TxKeeps, tx_seq-keeps, tx_pure-keeps, raise_if-keeps, select-keeps, first_or-keeps,
}
use marketplace_server.Platform.{Platform}
use marketplace_server.Auth.Action.{is_archived, PluginStatus}
use marketplace_server.Database.Statement.{update, insert, select, insert_lem, update_lem}
use marketplace_server.Database.Tx.{Tx, transaction_keeps, raise_if}
use marketplace_server.Plugins.Lifecycle.{is_restorable}
use marketplace_server.Plugins.Slots.{plugins, orphan_cleanups, repositories, plugin_versions}
use marketplace_server.Identity.Store.{first_or}

-- The row of a plugin agrees with the lifecycle: an archived plugin knows the status it was archived
-- from, which is one to go back to, and no other plugin has one.
abbrev pub is_consistent_status : PluginStatus → Option PluginStatus → Bool
is_consistent_status status from =
    if is_archived status then is_restorable from else not (is_some from)

abbrev pub is_consistent : Plugin → Bool
is_consistent p = is_consistent_status p.status p.archived_from

-- What an update may do with a plugin.
abbrev pub IsLifecycleChange : (Plugin → Bool) → (Plugin → Plugin) → Type 0
IsLifecycleChange matches change =
    (p : Plugin) → matches p ≡ true → is_consistent p ≡ true → is_consistent (change p) ≡ true

pub record Invariant (P : Rows → Type 0) : Type 0 where
  pub plugin_updated :
      (v : Rows) (matches : Plugin → Bool) (change : Plugin → Plugin)
      → IsLifecycleChange matches change
      → P v
      → P (record v { plugins = map_where matches change v.plugins })
  pub plugin_added :
      (v : Rows) (p : Plugin)
      → is_consistent p ≡ true
      → P v
      → P (record v { plugins = v.plugins ++ p ∷ [] })
  pub repository_added :
      (v : Rows) (r : Repository) → P v → P (record v { repositories = v.repositories ++ r ∷ [] })
  pub cleanup_added :
      (v : Rows) (c : RepositoryOrphanCleanup)
      → P v
      → P (record v { orphan_cleanups = v.orphan_cleanups ++ c ∷ [] })
  pub history_added :
      (v : Rows) (h : PluginVersionHistory)
      → P v
      → P (record v { plugin_version_history = v.plugin_version_history ++ h ∷ [] })
  pub version_added :
      (v : Rows) (n : PluginVersion)
      → any (clashes_version n) v.plugin_versions ≡ false
      → P v
      → P (record v { plugin_versions = v.plugin_versions ++ n ∷ [] })
  -- Only deleted versions are overwritten.
  pub version_updated :
      (v : Rows) (matches : PluginVersion → Bool) (change : PluginVersion → PluginVersion)
      → ((n : PluginVersion) → matches n ≡ true → is_deleted n.status ≡ true)
      → P v
      → P (record v { plugin_versions = map_where matches change v.plugin_versions })

module _ {e : Engine} {P : Rows → Type 0} (inv : Invariant P) where
  pub update_plugins-keeps :
      (matches : Plugin → Bool) (change : Plugin → Plugin)
      → IsLifecycleChange matches change
      → TxKeeps {e = e} P (update (plugins e) matches change)
  update_plugins-keeps matches change safe s s' n r p =
      subst P (sym (update_lem (plugins e) matches change s s' n r).0)
        (inv.plugin_updated _ matches change safe p)

  or_taken-keeps :
      {A : Type 0} (env : Platform) (m : Tx (Tables e) A) → TxKeeps P m → TxKeeps P (or_taken env m)
  unfolding or_taken
  or_taken-keeps env m k s s' a r p = k s s' a (ground arith) p

  pub or_contested-keeps :
      {A : Type 0} (env : Platform) (m : Tx (Tables e) A)
      → TxKeeps P m
      → TxKeeps P (or_contested env m)
  unfolding or_contested
  or_contested-keeps env m k s s' a r p = k s s' a (ground arith) p

  create_aggregate_body-keeps :
      (env : Platform) (a : Aggregate)
      → is_consistent a.plugin ≡ true
      → TxKeeps {e = e} P (create_aggregate_body env a)
  unfolding create_aggregate_body
  create_aggregate_body-keeps env a c =
      tx_seq-keeps P (or_taken env (insert (plugins e) (clashes_plugin a.plugin) a.plugin)) _
        (or_taken-keeps env _ (λ s s' u r p.
          subst P (sym (insert_lem (plugins e) _ _ s s' r).1) (inv.plugin_added _ _ c p)))
        (λ _. or_taken-keeps env _ (λ s s' u r p.
          subst P (sym (insert_lem (repositories e) _ _ s s' r).1) (inv.repository_added _ _ p)))

  pub create_aggregate-keeps :
      (env : Platform) (a : Aggregate) (s : Tables e)
      → is_consistent a.plugin ≡ true
      → P (view e s)
      → P (view e (create_aggregate env a s).1)
  unfolding create_aggregate
  create_aggregate-keeps env a s c p =
      elim (Bool-cases (
        is_blank a.plugin.namespace_id
        || is_blank a.plugin.id
        || is_blank a.plugin.slug
        || not (a.repository.id == a.plugin.id)
        || is_blank a.repository.storage_key)) [
          | inl q ↦ rw q p
          | inr q ↦ rw q (
              transaction_keeps (λ t. P (view e t)) _ s
                (λ s' r. create_aggregate_body-keeps env a c s s' tt r p) p)
        ]

  pub record_orphan_cleanup-keeps :
      (id : String) (a : Aggregate) (now : ℕ) → TxKeeps {e = e} P (record_orphan_cleanup id a now)
  unfolding record_orphan_cleanup
  record_orphan_cleanup-keeps id a now s s' u r p =
      subst P (sym (insert_lem (orphan_cleanups e) _ _ s s' r).1) (inv.cleanup_added _ _ p)

  write_default-keeps :
      (plugin : Plugin) (namespace_id plugin_id : String) (tag : Option String) (now : ℕ)
      → TxKeeps {e = e} P (write_default plugin namespace_id plugin_id tag now)
  unfolding write_default
  write_default-keeps plugin namespace_id plugin_id tag now =
      tx_seq-keeps P (update (plugins e) _ _) _ (update_plugins-keeps _ _ (λ p m c. c))
        (λ n. raise_if-keeps P _ _)

  set_unless-keeps :
      (b : Bool) (plugin : Plugin) (namespace_id plugin_id : String) (tag : Option String) (now : ℕ)
      → TxKeeps {e = e} P (set_unless b plugin namespace_id plugin_id tag now)
  unfolding set_unless
  set_unless-keeps true plugin namespace_id plugin_id tag now = tx_pure-keeps P tt
  set_unless-keeps false plugin namespace_id plugin_id tag now =
      write_default-keeps plugin namespace_id plugin_id tag now

  load_default_mutation_plugin-keeps :
      (namespace_id plugin_id : String)
      → TxKeeps {e = e} P (load_default_mutation_plugin namespace_id plugin_id)
  unfolding load_default_mutation_plugin
  load_default_mutation_plugin-keeps namespace_id plugin_id =
      tx_seq-keeps P (select (plugins e) _) _ (select-keeps P (plugins e) _)
        (λ found. first_or-keeps P _ found)

  pub set_default_version-keeps :
      (namespace_id plugin_id tag : String) (now : ℕ) (s : Tables e)
      → P (view e s)
      → P (view e (set_default_version namespace_id plugin_id tag now s).1)
  unfolding set_default_version set_default_version_body
  set_default_version-keeps namespace_id plugin_id tag now s p =
      elim (Bool-cases (is_blank namespace_id || is_blank plugin_id || is_blank tag)) [
        | inl q ↦ rw q p
        | inr q ↦ rw q (
            transaction_keeps (λ t. P (view e t)) _ s
              (λ s' r.
                tx_seq-keeps P (load_default_mutation_plugin namespace_id plugin_id) _
                  (load_default_mutation_plugin-keeps namespace_id plugin_id)
                  (λ plugin. tx_seq-keeps P (raise_if _ _) _ (raise_if-keeps P _ _) (λ _.
                    tx_seq-keeps P (select (plugin_versions e) _) _
                      (select-keeps P (plugin_versions e) _)
                      (λ found.
                        tx_seq-keeps P (first_or _ found) _ (first_or-keeps P _ found)
                          (λ _. set_unless-keeps _ plugin namespace_id plugin_id (some tag) now))))
                  s s' tt r p)
              p)
      ]

  pub clear_default_version-keeps :
      (namespace_id plugin_id : String) (now : ℕ) (s : Tables e)
      → P (view e s)
      → P (view e (clear_default_version namespace_id plugin_id now s).1)
  unfolding clear_default_version clear_default_version_body
  clear_default_version-keeps namespace_id plugin_id now s p =
      elim (Bool-cases (is_blank namespace_id || is_blank plugin_id)) [
        | inl q ↦ rw q p
        | inr q ↦ rw q (
            transaction_keeps (λ t. P (view e t)) _ s
              (λ s' r.
                tx_seq-keeps P (load_default_mutation_plugin namespace_id plugin_id) _
                  (load_default_mutation_plugin-keeps namespace_id plugin_id)
                  (λ plugin.
                    tx_seq-keeps P (raise_if _ _) _ (raise_if-keeps P _ _)
                      (λ _. set_unless-keeps _ plugin namespace_id plugin_id none now))
                  s s' tt r p)
              p)
      ]
