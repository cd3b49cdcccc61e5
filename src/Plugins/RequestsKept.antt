-- ===== src/Plugins/RequestsKept.antt =====
-- mod/backend/domain/plugin/service.go: what every request that changes plugins keeps.
use marketplace_server.Sql.{Engine}
use marketplace_server.Database.Tables.{Rows, Tables, view}
use marketplace_server.Plugins.Invariant.{
  Invariant, IsLifecycleChange, update_plugins-keeps, is_consistent_status,
  clear_default_version-keeps, set_default_version-keeps,
}
use marketplace_server.Plugins.Step.{
  Service, Request, run, PluginError, World, exec, forbidden, refuse_if, unavailable, ◌>>◌, ◌>>=◌,
  default_error, invalid_input,
}
use marketplace_server.Base.{
  String, Bool, Option, ◌≡◌, subst, ℕ, some, sym, Option-cases, arith, inl, inr, not, ◌||◌,
}
use marketplace_server.Auth.Principal.{Principal}
use marketplace_server.Plugins.Lookup.{authorize}
use marketplace_server.Plugins.Lifecycle.{
  archive_unless, default_target, restore_to, show_unless, update_one, locked_aggregate, is_live,
  archive, restore, choose_default, drop_default, set_visibility, same_visibility,
}
use marketplace_server.Database.Error.{StoreError, Check}
use marketplace_server.Plugins.Publish.{
  publish, PublishInput, publish_target, confirmed_inspection, publish_at, publish_valid,
}
use marketplace_server.Plugins.Kept.{
  Keeps, Holds, refuse_if-Keeps, seq-Keeps, locked_aggregate-state, refused-Keeps, exec-Keeps,
  publish_target-state, confirmed_inspection-tables, default_target-state,
}
use marketplace_server.Auth.Action.{
  Action, PluginStatus, ResourceRef, PluginVisibility, archived, plugin_archive, is_archived,
}
use marketplace_server.Plugins.Store.{Aggregate, set_default_version}
use marketplace_server.Plugins.Model.{Plugin}
use marketplace_server.Identity.Model.{Namespace}
use marketplace_server.Database.Statement.{update}
use marketplace_server.Plugins.Slots.{plugins}
use marketplace_server.Plugins.PublishKept.{publish_body-keeps}
use marketplace_server.Plugins.Publishing.{publish_body, publish_error}
use mathlib.Core.Bool.{true, false}
use mathlib.Core.Option.{none}
use marketplace_server.Plugins.Checks.{valid_canonical_tag, valid_visibility}

archived-consistent :
    (status : PluginStatus)
    → not (is_live status) ≡ false
    → is_consistent_status archived (some status) ≡ true
archived-consistent status h = ground arith

restored-consistent :
    (b : Bool) (original : PluginStatus)
    → (b || not (is_live original)) ≡ false
    → is_consistent_status original none ≡ true
restored-consistent b original h = ground arith

module _ {e : Engine} {W : Type 0} {P : Rows → Type 0} (inv : Invariant P)
    (service : Service e W) where
  -- The reads of a request leave the world as it was.
  same-Keeps :
      {A : Type 0} (m : Request e W A) → ((w : World e W) → (m w).1 ≡ w) → Keeps (Holds P) m
  same-Keeps m same w p = subst (Holds P) (sym (same w)) p

  pub authorize-Keeps :
      (p : Principal) (action : Action) (resource : ResourceRef)
      → Keeps (Holds P) (authorize service p action resource)
  unfolding authorize
  authorize-Keeps p action resource w = refuse_if-Keeps (Holds P) _ forbidden w

  update_one-Keeps :
      (matches : Plugin → Bool) (change : Plugin → Plugin)
      → IsLifecycleChange matches change
      → Keeps (Holds P) (update_one service matches change)
  unfolding update_one
  update_one-Keeps matches change safe =
      seq-Keeps (Holds P) (exec _ (update (plugins e) matches change)) _
        (exec-Keeps P _ _ (update_plugins-keeps inv matches change safe))
        (λ n. refuse_if-Keeps (Holds P) _ _)

  archive_unless-Keeps :
      (b : Bool) (ns : Namespace) (a : Plugin) (now : ℕ)
      → Keeps (Holds P) (archive_unless service b ns a now)
  unfolding archive_unless
  archive_unless-Keeps true ns a now = λ w p. p
  archive_unless-Keeps false ns a now =
      refused-Keeps (Holds P) _ PluginError.conflict (update_one service _ _)
        (λ live. update_one-Keeps _ _ (λ p m c. archived-consistent a.status live))

  restore_to-Keeps :
      (from : Option PluginStatus) (ns : Namespace) (a : Plugin) (now : ℕ)
      → Keeps (Holds P) (restore_to service from ns a now)
  unfolding restore_to
  restore_to-Keeps none ns a now = λ w p. p
  restore_to-Keeps (some original) ns a now =
      refused-Keeps (Holds P) _ PluginError.conflict (update_one service _ _)
        (λ live. update_one-Keeps _ _ (λ p m c. restored-consistent _ original live))

  show_unless-Keeps :
      (b : Bool) (ns : Namespace) (a : Plugin) (visibility : PluginVisibility) (now : ℕ)
      → Keeps (Holds P) (show_unless service b ns a visibility now)
  unfolding show_unless
  show_unless-Keeps true ns a visibility now = λ w p. p
  show_unless-Keeps false ns a visibility now = update_one-Keeps _ _ (λ p m c. c)

  run-Keeps :
      (f : StoreError → PluginError) (m : Tables e → Check × Tables e)
      → ((s : Tables e) → P (view e s) → P (view e (m s).1))
      → Keeps (Holds {e = e} {W = W} P) (run f m)
  unfolding run
  run-Keeps f m k w p = elim (Option-cases (m w.tables).0) [
    | inl q ↦ rw q (k w.tables p)
    | inr (x, q) ↦ rw q (k w.tables p)
  ]

  pub archive-Keeps :
      (p : Principal) (namespace_slug plugin_slug : String) (now : ℕ)
      → Keeps (Holds P) (archive service p namespace_slug plugin_slug now)
  unfolding archive
  archive-Keeps p namespace_slug plugin_slug now =
      seq-Keeps (Holds P) (locked_aggregate service p plugin_archive namespace_slug plugin_slug) _
        (same-Keeps (locked_aggregate service p plugin_archive namespace_slug plugin_slug)
          (locked_aggregate-state service p plugin_archive namespace_slug plugin_slug))
        (λ found. archive_unless-Keeps _ found.0 found.1.plugin now)

  pub restore-Keeps :
      (p : Principal) (namespace_slug plugin_slug : String) (now : ℕ)
      → Keeps (Holds P) (restore service p namespace_slug plugin_slug now)
  unfolding restore
  restore-Keeps p namespace_slug plugin_slug now =
      seq-Keeps (Holds P) (locked_aggregate service p plugin_archive namespace_slug plugin_slug) _
        (same-Keeps (locked_aggregate service p plugin_archive namespace_slug plugin_slug)
          (locked_aggregate-state service p plugin_archive namespace_slug plugin_slug))
        (λ found. restore_to-Keeps found.1.plugin.archived_from found.0 found.1.plugin now)

  publish_at-Keeps :
      (found : Namespace × Aggregate) (input : PublishInput)
      → Keeps (Holds P) (publish_at service found input)
  unfolding publish_at
  publish_at-Keeps (ns, a) input =
      seq-Keeps (Holds P) (confirmed_inspection service a input.tag) _
        (λ w. subst (λ t. P (view e t)) (sym (confirmed_inspection-tables service a input.tag w)))
        (λ i.
          seq-Keeps (Holds P)
            (exec publish_error
              (publish_body service.env input.ids ns.id a input.tag input.make_default i input.now))
            _
            (exec-Keeps P publish_error _ (
              publish_body-keeps inv service.env input.ids ns.id a input.tag input.make_default i
                input.now))
            (λ version w q. q))

  publish_valid-Keeps :
      (p : Principal) (namespace_slug plugin_slug : String) (input : PublishInput)
      → Keeps (Holds P) (publish_valid service p namespace_slug plugin_slug input)
  unfolding publish_valid
  publish_valid-Keeps p namespace_slug plugin_slug input =
      seq-Keeps (Holds P) (publish_target service p namespace_slug plugin_slug) _
        (same-Keeps (publish_target service p namespace_slug plugin_slug)
          (publish_target-state service p namespace_slug plugin_slug))
        (λ found. publish_at-Keeps found input)

  pub publish-Keeps :
      (p : Principal) (namespace_slug plugin_slug : String) (input : PublishInput)
      → Keeps (Holds P) (publish service p namespace_slug plugin_slug input)
  unfolding publish
  publish-Keeps p namespace_slug plugin_slug input =
      refused-Keeps (Holds P) (not (valid_canonical_tag input.tag)) invalid_input
        (refuse_if (not service.has_inspector) unavailable
          >> publish_valid service p namespace_slug plugin_slug input)
        (λ _.
          refused-Keeps (Holds P) (not service.has_inspector) unavailable
            (publish_valid service p namespace_slug plugin_slug input)
            (λ _. publish_valid-Keeps p namespace_slug plugin_slug input))

  pub choose_default-Keeps :
      (p : Principal) (namespace_slug plugin_slug tag : String) (now : ℕ)
      → Keeps (Holds P) (choose_default service p namespace_slug plugin_slug tag now)
  unfolding choose_default
  choose_default-Keeps p namespace_slug plugin_slug tag now =
      refused-Keeps (Holds P) (not (valid_canonical_tag tag)) PluginError.not_found
        (default_target service p namespace_slug plugin_slug >>= λ found.
          run default_error (set_default_version found.0.id found.1.plugin.id tag now))
        (λ _.
          seq-Keeps (Holds P) (default_target service p namespace_slug plugin_slug) _
            (same-Keeps (default_target service p namespace_slug plugin_slug)
              (default_target-state service p namespace_slug plugin_slug))
            (λ found.
              run-Keeps default_error _
                (set_default_version-keeps inv found.0.id found.1.plugin.id tag now)))

  pub drop_default-Keeps :
      (p : Principal) (namespace_slug plugin_slug : String) (now : ℕ)
      → Keeps (Holds P) (drop_default service p namespace_slug plugin_slug now)
  unfolding drop_default
  drop_default-Keeps p namespace_slug plugin_slug now =
      seq-Keeps (Holds P) (default_target service p namespace_slug plugin_slug) _
        (same-Keeps (default_target service p namespace_slug plugin_slug)
          (default_target-state service p namespace_slug plugin_slug))
        (λ found.
          run-Keeps default_error _
            (clear_default_version-keeps inv found.0.id found.1.plugin.id now))

  pub set_visibility-Keeps :
      (p : Principal) (namespace_slug plugin_slug : String) (visibility : PluginVisibility)
      (now : ℕ)
      → Keeps (Holds P) (set_visibility service p namespace_slug plugin_slug visibility now)
  unfolding set_visibility
  set_visibility-Keeps p namespace_slug plugin_slug visibility now =
      refused-Keeps (Holds P) (not (valid_visibility visibility)) invalid_input
        (locked_aggregate service p plugin_archive namespace_slug plugin_slug >>= λ found.
          (refuse_if (is_archived found.1.plugin.status) PluginError.conflict
            >> show_unless service (same_visibility found.1.plugin.visibility visibility) found.0
                found.1.plugin visibility now))
        (λ _.
          seq-Keeps (Holds P) (locked_aggregate service p plugin_archive namespace_slug plugin_slug)
            _
            (same-Keeps (locked_aggregate service p plugin_archive namespace_slug plugin_slug)
              (locked_aggregate-state service p plugin_archive namespace_slug plugin_slug))
            (λ found.
              refused-Keeps (Holds P) (is_archived found.1.plugin.status) PluginError.conflict
                (show_unless service (same_visibility found.1.plugin.visibility visibility) found.0
                  found.1.plugin visibility now)
                (λ _. show_unless-Keeps _ found.0 found.1.plugin visibility now)))
