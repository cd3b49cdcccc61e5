-- ===== src/Plugins/CreateKept.antt =====
-- mod/backend/domain/plugin/service.go: what `Create` keeps, its failures and their compensation
-- included.
use marketplace_server.Sql.{Engine}
use marketplace_server.Database.Tables.{Rows}
use marketplace_server.Plugins.Invariant.{
  Invariant, is_consistent, create_aggregate-keeps, record_orphan_cleanup-keeps,
}
use marketplace_server.Plugins.Step.{
  Service, checked_run, ProvisionedRepository, attempt, created, on_disk, unavailable,
  invalid_input,
}
use marketplace_server.Plugins.Creation.{
  clean_unless, compensate, create, create_in, create_valid, store_new, stored_or_compensated,
  absent, record_orphan_cleanup, new_aggregate, or_public,
}
use marketplace_server.Base.{Bool, Result, String, ℕ, ◌≡◌, some, true, arith, not, ◌||◌, refl}
use marketplace_server.Database.Error.{Check, StoreError}
use marketplace_server.Identity.Model.{Namespace}
use marketplace_server.Plugins.Lookup.{find_namespace_by_slug, authorize}
use marketplace_server.Auth.Principal.{Principal}
use marketplace_server.Plugins.Store.{Aggregate, create_aggregate, take_namespace, find_by_slug}
use marketplace_server.Auth.Action.{PluginVisibility, plugin_create, ResourceType, read_visibility}
use marketplace_server.Plugins.Kept.{
  Keeps, Holds, refused-Keeps, seq-Keeps, exec-Keeps, attempt-Keeps, on_disk-Keeps,
  take_namespace-keeps, find_by_slug-keeps,
}
use mathlib.Core.Option.{none}
use marketplace_server.Plugins.Checks.{valid_slug, valid_visibility}
use marketplace_server.Identity.Text.{trim_space}
use mathlib.Core.Bool.{false}
use marketplace_server.Plugins.RequestsKept.{authorize-Keeps}

module _ {e : Engine} {W : Type 0} {P : Rows → Type 0} (inv : Invariant P)
    (service : Service e W) where
  clean_unless-Keeps :
      (b : Bool) (cleanup_id : String) (a : Aggregate) (now : ℕ)
      → Keeps (Holds P) (clean_unless service b cleanup_id a now)
  unfolding clean_unless
  clean_unless-Keeps true cleanup_id a now = λ w p. p
  clean_unless-Keeps false cleanup_id a now =
      seq-Keeps (Holds P) (attempt (record_orphan_cleanup cleanup_id a now)) _
        (attempt-Keeps P _ (record_orphan_cleanup-keeps inv cleanup_id a now)) (λ _ w p. p)

  compensate-Keeps :
      (b : Bool) (provisioned : ProvisionedRepository) (cleanup_id : String) (a : Aggregate)
      (now : ℕ)
      → Keeps (Holds P) (compensate service b provisioned cleanup_id a now)
  unfolding compensate
  compensate-Keeps false provisioned cleanup_id a now = λ w p. p
  compensate-Keeps true provisioned cleanup_id a now =
      seq-Keeps (Holds P)
        (on_disk unavailable (λ d. (
          some (service.git.remove_provisioned provisioned d).0,
          (service.git.remove_provisioned provisioned d).1,
        )))
        (λ removed. clean_unless service removed cleanup_id a now) (on_disk-Keeps P _ _)
        (λ removed. clean_unless-Keeps removed cleanup_id a now)

  stored_or_compensated-Keeps :
      (outcome : Check) (provisioned : ProvisionedRepository) (cleanup_id : String) (a : Aggregate)
      (now : ℕ)
      → Keeps (Holds P) (stored_or_compensated service outcome provisioned cleanup_id a now)
  unfolding stored_or_compensated
  stored_or_compensated-Keeps none provisioned cleanup_id a now = λ w p. p
  stored_or_compensated-Keeps (some x) provisioned cleanup_id a now =
      seq-Keeps (Holds P) (compensate service (created provisioned) provisioned cleanup_id a now) _
        (compensate-Keeps (created provisioned) provisioned cleanup_id a now) (λ _ w p. p)

  store_new-Keeps :
      (a : Aggregate) (namespace_slug : String) (provisioned : ProvisionedRepository)
      (cleanup_id : String) (now : ℕ)
      → is_consistent a.plugin ≡ true
      → Keeps (Holds P) (store_new service a namespace_slug provisioned cleanup_id now)
  unfolding store_new checked_run
  store_new-Keeps a namespace_slug provisioned cleanup_id now c =
      seq-Keeps (Holds P) (checked_run (create_aggregate service.env a)) _
        (λ w p. create_aggregate-keeps inv service.env a w.tables c p)
        (λ outcome.
          seq-Keeps (Holds P) (stored_or_compensated service outcome provisioned cleanup_id a now) _
            (stored_or_compensated-Keeps outcome provisioned cleanup_id a now) (λ _ w p. p))

  absent-Keeps :
      (found : Result StoreError Aggregate) → Keeps (Holds {e = e} {W = W} P) (absent found)
  absent-Keeps found w p = ground arith

  create_in-Keeps :
      (ns : Namespace) (p : Principal) (name : String) (visibility : PluginVisibility)
      (id cleanup_id : String) (now : ℕ)
      → Keeps (Holds P) (create_in service ns p name visibility id cleanup_id now)
  unfolding create_in
  create_in-Keeps ns p name visibility id cleanup_id now =
      seq-Keeps (Holds P)
        (authorize service p plugin_create
          (record { type = ResourceType.namespace; id = ns.id; namespace_id = "" }))
        _ (authorize-Keeps inv service p _ _)
        (λ _.
          seq-Keeps (Holds P) (attempt (find_by_slug ns.id name)) _
            (attempt-Keeps P _ (find_by_slug-keeps P ns.id name))
            (λ found. seq-Keeps (Holds P) (absent found) _ (absent-Keeps found) (λ _.
              seq-Keeps (Holds P)
                (on_disk unavailable (service.git.provision (record { id = id; storage_key = id })))
                _ (on_disk-Keeps P _ _)
                (λ provisioned.
                  store_new-Keeps (new_aggregate id ns.id name visibility provisioned now) ns.slug
                    provisioned cleanup_id now refl))))

  create_valid-Keeps :
      (namespace_slug : String) (p : Principal) (name : String) (visibility : PluginVisibility)
      (id cleanup_id : String) (now : ℕ)
      → Keeps (Holds P) (create_valid service namespace_slug p name visibility id cleanup_id now)
  unfolding create_valid find_namespace_by_slug
  create_valid-Keeps namespace_slug p name visibility id cleanup_id now =
      seq-Keeps (Holds P) (find_namespace_by_slug service namespace_slug) _
        (exec-Keeps P _ (take_namespace namespace_slug) (take_namespace-keeps P namespace_slug))
        (λ ns. create_in-Keeps ns p name visibility id cleanup_id now)

  pub create-Keeps :
      (p : Principal) (namespace_text name_text visibility_text id cleanup_id : String) (now : ℕ)
      → Keeps
          (Holds P)
          (create service p namespace_text name_text visibility_text id cleanup_id now)
  unfolding create
  create-Keeps p namespace_text name_text visibility_text id cleanup_id now =
      refused-Keeps (Holds P)
        (not (valid_slug (trim_space namespace_text))
          || not (valid_slug (trim_space name_text))
          || not (valid_visibility (read_visibility (or_public (trim_space visibility_text)))))
        invalid_input
        (create_valid service (trim_space namespace_text) p (trim_space name_text)
          (read_visibility (or_public (trim_space visibility_text))) id cleanup_id now)
        (λ _. create_valid-Keeps _ p _ _ id cleanup_id now)
