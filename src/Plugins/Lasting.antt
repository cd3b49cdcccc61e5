-- ===== src/Plugins/Lasting.antt =====
-- mod/backend/domain/plugin/service.go: what holds of the plugins and their versions after any request.
use marketplace_server.Base.{
  [], ◌∷◌, arith, refl, ◌∙◌, Option, Bool, String, all, any, ◌≡◌, true, ℕ, ◌&&◌, false, none, some,
}
use marketplace_server.Plugins.Creation.{create}
use marketplace_server.Plugins.Publish.{
  publish, perform, PluginRequest, creation, exposure, publication, default_choice, archival,
  restoral, default_removal,
}
use marketplace_server.Database.Tables.{Rows, view}
use marketplace_server.Plugins.Model.{PluginVersion, is_available, is_deleted}
use marketplace_server.Plugins.Invariant.{Invariant, is_consistent}
use marketplace_server.Sql.{
  Engine, all-map_where, any-append, any-map_where, All-true, all-append, unmatched,
}
use marketplace_server.Plugins.Step.{Service, World}
use marketplace_server.Plugins.Store.{is_version}
use marketplace_server.Auth.Principal.{Principal}
use marketplace_server.Plugins.Checks.{same_bytes}
use marketplace_server.Plugins.Kept.{Keeps, Holds, seq-Keeps}
use marketplace_server.Plugins.CreateKept.{create-Keeps}
use marketplace_server.Plugins.RequestsKept.{
  archive-Keeps, restore-Keeps, set_visibility-Keeps, publish-Keeps, choose_default-Keeps,
  drop_default-Keeps,
}
use marketplace_server.Plugins.Publishing.{is_text}

-- Every plugin agrees with the lifecycle.
abbrev pub IsLifecycle : Rows → Type 0
IsLifecycle v = all is_consistent v.plugins ≡ true

-- The given version has its source, and the row has the same one.
abbrev pub same_text : Option String → Option String → Bool
same_text stored none = false
same_text stored (some given) = is_text stored given

-- There is an available version of the plugin with the tag, the commit, the tag object and the
-- manifest of the given one.
abbrev pub same_publication : PluginVersion → PluginVersion → Bool
same_publication n v =
    is_version n.plugin_id n.tag v
    && is_available v.status
    && same_text v.raw_tag_object_id n.raw_tag_object_id
    && same_text v.commit_sha n.commit_sha
    && same_text v.manifest_digest n.manifest_digest
    && same_bytes v.manifest_snapshot n.manifest_snapshot

abbrev pub IsPublished : PluginVersion → Rows → Type 0
IsPublished n v = any (same_publication n) v.plugin_versions ≡ true

IsLifecycle-Invariant : Invariant IsLifecycle
IsLifecycle-Invariant = record {
  plugin_updated =
      λ v matches change safe h. all-map_where is_consistent matches change v.plugins safe h;
  plugin_added = λ v p c h. all-append is_consistent v.plugins (p ∷ []) ∙ ground arith;
  repository_added = λ v r h. h;
  cleanup_added = λ v c h. h;
  history_added = λ v x h. h;
  version_added = λ v n fresh h. h;
  version_updated = λ v matches change deleted h. h;
}

-- An update of deleted versions does not match an available one.
available-unmatched :
    (n a : PluginVersion) (b : Bool)
    → (b ≡ true → is_deleted a.status ≡ true)
    → same_publication n a ≡ true
    → b ≡ false
available-unmatched n a false d h = refl
available-unmatched n a true d h = ground (arith, d refl)

IsPublished-Invariant : (n : PluginVersion) → Invariant (IsPublished n)
IsPublished-Invariant n = record {
  plugin_updated = λ v matches change safe h. h;
  plugin_added = λ v p c h. h;
  repository_added = λ v r h. h;
  cleanup_added = λ v c h. h;
  history_added = λ v x h. h;
  version_added =
      λ v x fresh h. any-append (same_publication n) v.plugin_versions (x ∷ []) ∙ ground arith;
  version_updated = λ v matches change deleted h.
      any-map_where (same_publication n) matches change v.plugin_versions
        (All-true _ v.plugin_versions (λ a r.
          unmatched (same_publication n) matches change a
            (available-unmatched n a (matches a) (deleted a) r) r))
        h;
}

module _ {e : Engine} {W : Type 0} {P : Rows → Type 0} (inv : Invariant P)
    (service : Service e W) where
  pub perform-Keeps :
      (p : Principal) (ns slug : String) (now : ℕ) (request : PluginRequest)
      → Keeps (Holds P) (perform service p ns slug now request)
  unfolding perform
  perform-Keeps p ns slug now (creation visibility id cleanup_id) =
      seq-Keeps (Holds P) (create service p ns slug visibility id cleanup_id now) _
        (create-Keeps inv service p ns slug visibility id cleanup_id now) (λ _ w h. h)
  perform-Keeps p ns slug now archival = archive-Keeps inv service p ns slug now
  perform-Keeps p ns slug now restoral = restore-Keeps inv service p ns slug now
  perform-Keeps p ns slug now (exposure visibility) =
      set_visibility-Keeps inv service p ns slug visibility now
  perform-Keeps p ns slug now (publication input) =
      seq-Keeps (Holds P) (publish service p ns slug input) _
        (publish-Keeps inv service p ns slug input) (λ _ w h. h)
  perform-Keeps p ns slug now (default_choice tag) =
      choose_default-Keeps inv service p ns slug tag now
  perform-Keeps p ns slug now default_removal = drop_default-Keeps inv service p ns slug now

module _ {e : Engine} {W : Type 0} (service : Service e W) where
  -- A request that changes plugins, whatever it answers, leaves every plugin in agreement with the
  -- lifecycle where every plugin was: an archived plugin knows a status to go back to, a draft or an
  -- active one, and a plugin that is not archived has none.
  pub perform-IsLifecycle :
      (p : Principal) (ns slug : String) (now : ℕ) (request : PluginRequest) (w : World e W)
      → IsLifecycle (view e w.tables)
      → IsLifecycle (view e (perform service p ns slug now request w).1.tables)
  perform-IsLifecycle p ns slug now request w h =
      perform-Keeps IsLifecycle-Invariant service p ns slug now request w h

  -- A published version is immutable here: whatever request of the plugin service follows, on any
  -- plugin and whatever it answers, an available version of a plugin stays available under its tag
  -- with the tag object, the commit and the manifest that it had.
  pub perform-IsPublished :
      (p : Principal) (ns slug : String) (now : ℕ) (request : PluginRequest) (n : PluginVersion)
      (w : World e W)
      → IsPublished n (view e w.tables)
      → IsPublished n (view e (perform service p ns slug now request w).1.tables)
  perform-IsPublished p ns slug now request n w h =
      perform-Keeps (IsPublished-Invariant n) service p ns slug now request w h
