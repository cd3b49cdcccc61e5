-- ===== src/Plugins/Published.antt =====
-- mod/backend/domain/plugin/service.go: what a successful publication leaves in the database.
use marketplace_server.Database.Tx
use marketplace_server.Base.{
  [], ◌∷◌, refl, arith, ◌∙◌, Bool, String, List, any, filter, ℕ, ◌==◌, ◌≡◌, true, ◌&&◌, eq_refl, ok,
  ◌<◌, false, not, subst, eqb, sym, Option,
}
use marketplace_server.Plugins.Checks.{same_bytes}
use marketplace_server.Plugins.Publishing.{
  holds_inspection, or_contested, publish_new, revive, Ids, new_version, revived, publish_again,
  publish_body, publish_version, note_history, touch_plugin,
}
use marketplace_server.Sql.{
  Engine, any-append, any-map_where, All-true, count, map_where, unmatched, filter_head,
}
use marketplace_server.Plugins.Step.{PluginSourceInspection}
use marketplace_server.Database.Tables.{Rows, Tables, view}
use marketplace_server.Plugins.Model.{
  PluginVersion, is_available, is_deleted, VersionHistoryOperation, VersionStatus, Plugin, deleted,
  available,
}
use marketplace_server.Database.Tx.{Tx, >>=-eq-ok, raise_if, raise_if_lem, pure-eq-ok}
use marketplace_server.Plugins.Store.{is_version, Aggregate, unresolved_receive_exists}
use marketplace_server.Plugins.Invariant.{Invariant}
use marketplace_server.Platform.{Platform}
use marketplace_server.Plugins.Kept.{TxKeeps, tx_pure-keeps, tx_seq-keeps}
use marketplace_server.Database.Statement.{
  insert, update, insert_lem, update_lem, select, select_lem,
}
use marketplace_server.Plugins.Slots.{plugin_versions, plugins, repositories}
use marketplace_server.Database.Error.{plugin_conflict}
use marketplace_server.Identity.Store.{first_or}
use marketplace_server.Plugins.PublishKept.{note_history-keeps, touch_plugin-keeps}

-- An available version of the plugin under the tag, with what was inspected.
abbrev pub is_published : String → String → PluginSourceInspection → PluginVersion → Bool
is_published plugin_id tag i v =
    is_version plugin_id tag v && is_available v.status && holds_inspection i v

abbrev pub HasPublished : String → String → PluginSourceInspection → Rows → Type 0
HasPublished plugin_id tag i v = any (is_published plugin_id tag i) v.plugin_versions ≡ true

same_bytes_refl : (l : List ℕ) → same_bytes l l ≡ true
unfolding same_bytes
same_bytes_refl [] = refl
same_bytes_refl (a ∷ l) = ground (arith, same_bytes_refl l)

new_version-is_published :
    (id plugin_id tag : String) (i : PluginSourceInspection) (now : ℕ)
    → is_published plugin_id tag i (new_version id plugin_id tag i now) ≡ true
unfolding holds_inspection
new_version-is_published id plugin_id tag i now = ground (
  arith,
  eq_refl plugin_id,
  eq_refl tag,
  eq_refl i.raw_tag_object_id,
  eq_refl i.commit_object_id,
  eq_refl i.manifest_digest,
  same_bytes_refl i.manifest_snapshot,
)

revived-is_published :
    (plugin_id tag : String) (i : PluginSourceInspection) (now : ℕ) (v : PluginVersion)
    → is_version plugin_id tag v ≡ true
    → is_published plugin_id tag i (revived i now v) ≡ true
unfolding holds_inspection
revived-is_published plugin_id tag i now v h = ground (
  arith,
  eq_refl i.raw_tag_object_id,
  eq_refl i.commit_object_id,
  eq_refl i.manifest_digest,
  same_bytes_refl i.manifest_snapshot,
)

-- A row that an update matches and that passes a test after it is found by the test.
any-map_where_hit :
    {A : Type 0} (r q : A → Bool) (f : A → A) (l : List A)
    → ((a : A) → q a ≡ true → r (f a) ≡ true)
    → 0 < count q l
    → any r (map_where q f l) ≡ true
any-map_where_hit r q f [] k h = absurd (omega arith)
any-map_where_hit r q f (a ∷ l) k h = ground (arith, k a, any-map_where_hit r q f l k)

any_head :
    {A : Type 0} (r q : A → Bool) (l : List A) (c : A) (rest : List A)
    → filter q l ≡ c ∷ rest
    → r c ≡ true
    → any r l ≡ true
any_head r q [] c rest h k = absurd (cc h)
any_head r q (a ∷ l) c rest h k = ground (arith, any_head r q l c rest)

matched-is_version :
    (id plugin_id tag : String) (v : PluginVersion)
    → (v.id == id && is_version plugin_id tag v && is_deleted v.status) ≡ true
    → is_version plugin_id tag v ≡ true
matched-is_version id plugin_id tag v h = ground arith

-- An update of deleted versions does not match an available one.
published-unmatched :
    (plugin_id tag : String) (i : PluginSourceInspection) (a : PluginVersion) (b : Bool)
    → (b ≡ true → is_deleted a.status ≡ true)
    → is_published plugin_id tag i a ≡ true
    → b ≡ false
published-unmatched plugin_id tag i a false d h = refl
published-unmatched plugin_id tag i a true d h = ground (arith, d refl)

HasPublished-Invariant :
    (plugin_id tag : String) (i : PluginSourceInspection) → Invariant (HasPublished plugin_id tag i)
HasPublished-Invariant plugin_id tag i = record {
  plugin_updated = λ v matches change safe h. h;
  plugin_added = λ v p c h. h;
  repository_added = λ v r h. h;
  cleanup_added = λ v c h. h;
  history_added = λ v x h. h;
  version_added = λ v x fresh h.
      any-append (is_published plugin_id tag i) v.plugin_versions (x ∷ []) ∙ ground arith;
  version_updated = λ v matches change deleted h.
      any-map_where (is_published plugin_id tag i) matches change v.plugin_versions
        (All-true _ v.plugin_versions (λ a r.
          unmatched (is_published plugin_id tag i) matches change a
            (published-unmatched plugin_id tag i a (matches a) (deleted a) r) r))
        h;
}

-- Where a statement or a transaction succeeds, the rows have a property.
abbrev Gives : {e : Engine} {A : Type 0} → (Rows → Type 0) → Tx (Tables e) A → Type 0
Gives {e = e} {A = A} Q m = (s s' : Tables e) (a : A) → m s ≡ ok (a, s') → Q (view e s')

module _ {e : Engine} {A B : Type 0} (Q : Rows → Type 0) where
  last-Gives :
      (m : Tx (Tables e) A) (f : A → Tx (Tables e) B)
      → ((a : A) → Gives Q (f a))
      → Gives Q (Tx.◌>>=◌ m f)
  last-Gives m f k s s' b r = let (a, t, q, r') = >>=-eq-ok m f s s' b r in k a t s' b r'

  first-Gives :
      (m : Tx (Tables e) A) (f : A → Tx (Tables e) B)
      → Gives Q m
      → ((a : A) → TxKeeps Q (f a))
      → Gives Q (Tx.◌>>=◌ m f)
  first-Gives m f h k s s' b r =
      let (a, t, q, r') = >>=-eq-ok m f s s' b r in k a t s' b r' (h s t a q)

module _ {e : Engine} where
  contested-Gives :
      {A : Type 0} (Q : Rows → Type 0) (env : Platform) (m : Tx (Tables e) A)
      → Gives Q m
      → Gives Q (or_contested env m)
  unfolding or_contested
  contested-Gives Q env m k s s' a r = k s s' a (ground arith)

  publish_new-Gives :
      (env : Platform) (ids : Ids) (plugin_id tag : String) (i : PluginSourceInspection) (now : ℕ)
      → Gives {e = e} (HasPublished plugin_id tag i) (publish_new env ids plugin_id tag i now)
  unfolding publish_new
  publish_new-Gives env ids plugin_id tag i now =
      first-Gives (HasPublished plugin_id tag i) (or_contested env (insert (plugin_versions e) _ _))
        _
        (contested-Gives (HasPublished plugin_id tag i) env _ (λ s s' u r.
          let (_, after) = insert_lem (plugin_versions e) _ _ s s' r in
          subst (HasPublished plugin_id tag i) (sym after) (
            any-append (is_published plugin_id tag i) ((view e s).plugin_versions) _
            ∙ ground (arith, new_version-is_published ids.version plugin_id tag i now))))
        (λ _. tx_pure-keeps (HasPublished plugin_id tag i) _)

  revive-Gives :
      (version : PluginVersion) (plugin_id tag : String) (i : PluginSourceInspection) (now : ℕ)
      → Gives {e = e} (HasPublished plugin_id tag i) (revive version plugin_id tag i now)
  unfolding revive
  revive-Gives version plugin_id tag i now s s' done r =
      let (n, t, q, r1) = >>=-eq-ok (update (plugin_versions e) _ _) _ s s' done r in
      let (_, t', q', r2) = >>=-eq-ok (raise_if (not (eqb n 1)) plugin_conflict) _ t s' done r1 in
      let (one, same) = raise_if_lem _ _ t t' q' in
      let (after, counted) = update_lem (plugin_versions e) _ _ s t n q in
      subst (λ x. HasPublished plugin_id tag i (view e x)) (sym same ∙ pure-eq-ok _ _ t' s' r2)
        (subst (HasPublished plugin_id tag i) (sym after) (
          any-map_where_hit (is_published plugin_id tag i)
            (λ v. v.id == version.id && is_version plugin_id tag v && is_deleted v.status)
            (revived i now) ((view e s).plugin_versions)
            (λ v m.
              revived-is_published plugin_id tag i now v
                (matched-is_version version.id plugin_id tag v m))
            (ground (arith, counted, one))))

  publish_again-Gives :
      (status : VersionStatus) (version : PluginVersion) (plugin_id tag : String)
      (i : PluginSourceInspection) (now : ℕ) (rest : List PluginVersion) (s s' : Tables e)
      (done : PluginVersion × Option VersionHistoryOperation)
      → version.status ≡ status
      → filter (is_version plugin_id tag) (view e s).plugin_versions ≡ version ∷ rest
      → publish_again status version plugin_id tag i now s ≡ ok (done, s')
      → HasPublished plugin_id tag i (view e s')
  unfolding publish_again
  publish_again-Gives deleted version plugin_id tag i now rest s s' done st q r =
      revive-Gives version plugin_id tag i now s s' done r
  publish_again-Gives available version plugin_id tag i now rest s s' done st q r =
      let (_, t, x, r') =
        >>=-eq-ok (raise_if (not (holds_inspection i version)) plugin_conflict) _ s s' done r in
      let (holds, same) = raise_if_lem _ _ s t x in
      subst (λ y. HasPublished plugin_id tag i (view e y)) (sym same ∙ pure-eq-ok _ _ t s' r')
        (any_head (is_published plugin_id tag i) (is_version plugin_id tag)
          ((view e s).plugin_versions) version rest q
          (ground (
            arith,
            st,
            holds,
            filter_head (is_version plugin_id tag) ((view e s).plugin_versions) version rest q,
          )))
  publish_again-Gives (VersionStatus.unlisted x) version plugin_id tag i now rest s s' done st q r =
      absurd (cc r)

  publish_version-Gives :
      (env : Platform) (ids : Ids) (found : List PluginVersion) (plugin_id tag : String)
      (i : PluginSourceInspection) (now : ℕ) (s s' : Tables e)
      (done : PluginVersion × Option VersionHistoryOperation)
      → filter (is_version plugin_id tag) (view e s).plugin_versions ≡ found
      → publish_version env ids found plugin_id tag i now s ≡ ok (done, s')
      → HasPublished plugin_id tag i (view e s')
  unfolding publish_version
  publish_version-Gives env ids [] plugin_id tag i now s s' done q r =
      publish_new-Gives env ids plugin_id tag i now s s' done r
  publish_version-Gives env ids (version ∷ rest) plugin_id tag i now s s' done q r =
      publish_again-Gives version.status version plugin_id tag i now rest s s' done refl q r

  published_tail-keeps :
      (ids : Ids) (operation : Option VersionHistoryOperation) (version : PluginVersion)
      (needed make_default : Bool) (current : Plugin) (namespace_id plugin_id tag : String)
      (i : PluginSourceInspection) (now : ℕ)
      → TxKeeps {e = e} (HasPublished plugin_id tag i) (
          Tx.◌>>◌ (note_history operation ids plugin_id tag i now) (
            Tx.◌>>◌
              (touch_plugin needed make_default current namespace_id plugin_id tag now)
              (Tx.pure version)))
  published_tail-keeps ids operation version needed make_default current namespace_id plugin_id tag
        i now =
      tx_seq-keeps (HasPublished plugin_id tag i) (note_history operation ids plugin_id tag i now) _
        (note_history-keeps (HasPublished-Invariant plugin_id tag i) operation ids plugin_id tag i
          now)
        (λ _.
          tx_seq-keeps (HasPublished plugin_id tag i)
            (touch_plugin needed make_default current namespace_id plugin_id tag now) _
            (touch_plugin-keeps (HasPublished-Invariant plugin_id tag i) needed make_default current
              namespace_id plugin_id tag now)
            (λ _. tx_pure-keeps (HasPublished plugin_id tag i) version))

  publish_found-Gives :
      (env : Platform) (ids : Ids) (plugin_id tag : String) (i : PluginSourceInspection) (now : ℕ)
      (next : PluginVersion × Option VersionHistoryOperation → Tx (Tables e) PluginVersion)
      → ((done : PluginVersion × Option VersionHistoryOperation)
          → TxKeeps (HasPublished plugin_id tag i) (next done))
      → Gives {e = e} (HasPublished plugin_id tag i) (
          Tx.◌>>=◌
            (select (plugin_versions e) (is_version plugin_id tag))
            (λ found. Tx.◌>>=◌ (publish_version env ids found plugin_id tag i now) next))
  publish_found-Gives env ids plugin_id tag i now next k s s' version r =
      let (found, t, q, r1) =
        >>=-eq-ok (select (plugin_versions e) (is_version plugin_id tag)) _ s s' version r in
      let (same, rows) = select_lem (plugin_versions e) _ s t found q in
      let (done, t', q', r2) =
        >>=-eq-ok (publish_version env ids found plugin_id tag i now) next t s' version r1 in
      k done t' s' version r2 (
        publish_version-Gives env ids found plugin_id tag i now t t' done
          (subst (λ y. filter (is_version plugin_id tag) (view e y).plugin_versions ≡ found)
            (sym same) (sym rows))
          q')

  -- Where the transaction of `Publish` succeeds, the plugin has an available version under the tag
  -- with the tag object, the commit and the manifest that were inspected, whether the version was
  -- new, was deleted before, or was there already.
  pub publish_body-HasPublished :
      (env : Platform) (ids : Ids) (namespace_id : String) (a : Aggregate) (tag : String)
      (make_default : Bool) (i : PluginSourceInspection) (now : ℕ) (s s' : Tables e)
      (version : PluginVersion)
      → publish_body env ids namespace_id a tag make_default i now s ≡ ok (version, s')
      → HasPublished a.plugin.id tag i (view e s')
  unfolding publish_body
  publish_body-HasPublished env ids namespace_id a tag make_default i now =
      let Q = HasPublished a.plugin.id tag i in
      last-Gives Q (select (plugins e) _) _ (λ rows. last-Gives Q (first_or _ rows) _ (λ current.
        last-Gives Q (select (repositories e) _) _ (λ stored.
          last-Gives Q (first_or _ stored) _ (λ repository. last-Gives Q (raise_if _ _) _ (λ _.
            last-Gives Q (unresolved_receive_exists _) _ (λ unresolved.
              last-Gives Q (raise_if _ _) _ (λ _.
                publish_found-Gives env ids a.plugin.id tag i now _ (λ done.
                  published_tail-keeps ids done.1 done.0 _ _ current namespace_id a.plugin.id tag i
                    now))))))))
