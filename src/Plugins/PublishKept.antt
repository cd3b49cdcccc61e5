-- ===== src/Plugins/PublishKept.antt =====
-- mod/backend/domain/plugin/service.go: what the transaction of `Publish` keeps.
use marketplace_server.Base.{
  arith, [], ◌∷◌, Bool, Option, String, List, ℕ, subst, some, ◌≡◌, sym, true, ◌==◌, ◌&&◌,
}
use marketplace_server.Sql.{Engine}
use marketplace_server.Database.Tables.{Rows, view}
use marketplace_server.Plugins.Invariant.{
  Invariant, or_contested-keeps, update_plugins-keeps, is_consistent_status,
}
use marketplace_server.Plugins.Publishing.{
  note_history, publish_again, publish_body, publish_new, publish_version, revive, touch_plugin,
  Ids, or_contested, activated,
}
use marketplace_server.Plugins.Model.{
  Plugin, PluginVersion, VersionStatus, VersionHistoryOperation, deleted, available, is_deleted,
}
use marketplace_server.Plugins.Store.{
  unresolved_receive_exists, Aggregate, same_plugin_status, is_plugin, is_version,
}
use marketplace_server.Platform.{Platform}
use marketplace_server.Database.Statement.{
  select_count, select, update, insert, insert_lem, update_lem,
}
use marketplace_server.Plugins.Step.{PluginSourceInspection}
use marketplace_server.Plugins.Kept.{
  TxKeeps, tx_pure-keeps, tx_seq-keeps, raise_if-keeps, select-keeps, first_or-keeps,
}
use marketplace_server.Database.Tx.{raise_if}
use marketplace_server.Plugins.Slots.{
  plugin_versions, plugins, plugin_version_history, repositories,
}
use mathlib.Core.Bool.{false}
use marketplace_server.Identity.Store.{first_or}
use mathlib.Core.Option.{none}
use marketplace_server.Auth.Action.{PluginStatus, draft, active, archived}

-- A draft becomes active, and any other status stays.
activated-consistent :
    (current stored : PluginStatus) (from : Option PluginStatus)
    → same_plugin_status stored current ≡ true
    → is_consistent_status stored from ≡ true
    → is_consistent_status (activated current stored) from ≡ true
activated-consistent draft draft from m c = c
activated-consistent draft active from m c = c
activated-consistent draft archived from m c = cc
activated-consistent draft (PluginStatus.unlisted x) from m c = c
activated-consistent active stored from m c = c
activated-consistent archived stored from m c = c
activated-consistent (PluginStatus.unlisted y) stored from m c = c

revived-deleted :
    (id plugin_id tag : String) (v : PluginVersion)
    → (v.id == id && is_version plugin_id tag v && is_deleted v.status) ≡ true
    → is_deleted v.status ≡ true
revived-deleted id plugin_id tag v h = ground arith

touched :
    (namespace_id plugin_id : String) (current p : Plugin)
    → (is_plugin namespace_id plugin_id p && same_plugin_status p.status current.status) ≡ true
    → same_plugin_status p.status current.status ≡ true
touched namespace_id plugin_id current p h = ground arith

module _ {e : Engine} {P : Rows → Type 0} (inv : Invariant P) where
  publish_new-keeps :
      (env : Platform) (ids : Ids) (plugin_id tag : String) (i : PluginSourceInspection) (now : ℕ)
      → TxKeeps {e = e} P (publish_new env ids plugin_id tag i now)
  unfolding publish_new
  publish_new-keeps env ids plugin_id tag i now =
      tx_seq-keeps P (or_contested env (insert (plugin_versions e) _ _)) _
        (or_contested-keeps inv env _ (λ s s' u r p.
          let (fresh, after) = insert_lem (plugin_versions e) _ _ s s' r in
          subst P (sym after) (inv.version_added _ _ fresh p)))
        (λ _. tx_pure-keeps P _)

  revive-keeps :
      (version : PluginVersion) (plugin_id tag : String) (i : PluginSourceInspection) (now : ℕ)
      → TxKeeps {e = e} P (revive version plugin_id tag i now)
  unfolding revive
  revive-keeps version plugin_id tag i now =
      tx_seq-keeps P (update (plugin_versions e) _ _) _
        (λ s s' n r p.
          subst P (sym (update_lem (plugin_versions e) _ _ s s' n r).0)
            (inv.version_updated _ _ _ (λ v m. revived-deleted version.id plugin_id tag v m) p))
        (λ n. tx_seq-keeps P (raise_if _ _) _ (raise_if-keeps P _ _) (λ _. tx_pure-keeps P _))

  publish_again-keeps :
      (status : VersionStatus) (version : PluginVersion) (plugin_id tag : String)
      (i : PluginSourceInspection) (now : ℕ)
      → TxKeeps {e = e} P (publish_again status version plugin_id tag i now)
  unfolding publish_again
  publish_again-keeps deleted version plugin_id tag i now = revive-keeps version plugin_id tag i now
  publish_again-keeps available version plugin_id tag i now =
      tx_seq-keeps P (raise_if _ _) _ (raise_if-keeps P _ _) (λ _. tx_pure-keeps P _)
  publish_again-keeps (VersionStatus.unlisted _) version plugin_id tag i now = λ s s' a r p. cc

  publish_version-keeps :
      (env : Platform) (ids : Ids) (found : List PluginVersion) (plugin_id tag : String)
      (i : PluginSourceInspection) (now : ℕ)
      → TxKeeps {e = e} P (publish_version env ids found plugin_id tag i now)
  unfolding publish_version
  publish_version-keeps env ids [] plugin_id tag i now =
      publish_new-keeps env ids plugin_id tag i now
  publish_version-keeps env ids (version ∷ _) plugin_id tag i now =
      publish_again-keeps version.status version plugin_id tag i now

  pub note_history-keeps :
      (operation : Option VersionHistoryOperation) (ids : Ids) (plugin_id tag : String)
      (i : PluginSourceInspection) (now : ℕ)
      → TxKeeps {e = e} P (note_history operation ids plugin_id tag i now)
  unfolding note_history
  note_history-keeps none ids plugin_id tag i now = tx_pure-keeps P tt
  note_history-keeps (some operation) ids plugin_id tag i now = λ s s' u r p.
      subst P (sym (insert_lem (plugin_version_history e) _ _ s s' r).1) (inv.history_added _ _ p)

  pub touch_plugin-keeps :
      (needed make_default : Bool) (current : Plugin) (namespace_id plugin_id tag : String)
      (now : ℕ)
      → TxKeeps {e = e} P (touch_plugin needed make_default current namespace_id plugin_id tag now)
  unfolding touch_plugin
  touch_plugin-keeps false make_default current namespace_id plugin_id tag now = tx_pure-keeps P tt
  touch_plugin-keeps true make_default current namespace_id plugin_id tag now =
      tx_seq-keeps P (update (plugins e) _ _) _
        (update_plugins-keeps inv _ _ (λ p m c.
          activated-consistent current.status p.status p.archived_from
            (touched namespace_id plugin_id current p m) c))
        (λ n. raise_if-keeps P _ _)

  pub unresolved_receive_exists-keeps :
      (plugin_id : String) → TxKeeps {e = e} P (unresolved_receive_exists plugin_id)
  unfolding unresolved_receive_exists select_count
  unresolved_receive_exists-keeps plugin_id s s' b r p = subst (λ t. P (view e t)) (ground arith) p

  pub publish_body-keeps :
      (env : Platform) (ids : Ids) (namespace_id : String) (a : Aggregate) (tag : String)
      (make_default : Bool) (i : PluginSourceInspection) (now : ℕ)
      → TxKeeps {e = e} P (publish_body env ids namespace_id a tag make_default i now)
  unfolding publish_body
  publish_body-keeps env ids namespace_id a tag make_default i now =
      tx_seq-keeps P (select (plugins e) _) _ (select-keeps P (plugins e) _) (λ rows.
        tx_seq-keeps P (first_or _ rows) _ (first_or-keeps P _ rows) (λ current.
          tx_seq-keeps P (select (repositories e) _) _ (select-keeps P (repositories e) _)
            (λ stored.
              tx_seq-keeps P (first_or _ stored) _ (first_or-keeps P _ stored) (λ repository.
                tx_seq-keeps P (raise_if _ _) _ (raise_if-keeps P _ _) (λ _.
                  tx_seq-keeps P (unresolved_receive_exists _) _ (unresolved_receive_exists-keeps _)
                    (λ unresolved. tx_seq-keeps P (raise_if _ _) _ (raise_if-keeps P _ _) (λ _.
                      tx_seq-keeps P (select (plugin_versions e) _) _
                        (select-keeps P (plugin_versions e) _)
                        (λ found.
                          tx_seq-keeps P (publish_version env ids found _ tag i now) _
                            (publish_version-keeps env ids found _ tag i now)
                            (λ done.
                              tx_seq-keeps P (note_history _ ids _ tag i now) _
                                (note_history-keeps _ ids _ tag i now)
                                (λ _.
                                  tx_seq-keeps P (touch_plugin _ _ current namespace_id _ tag now) _
                                    (touch_plugin-keeps _ _ current namespace_id _ tag now)
                                    (λ _. tx_pure-keeps P _)))))))))))
