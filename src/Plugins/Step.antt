-- ===== src/Plugins/Step.antt =====
-- mod/backend/domain/plugin/service.go: the errors and the steps of the plugin service, and the
-- interfaces of pkg/auth and pkg/gitservice that it is made with.
pub use marketplace_server.Handler.{pure, raise, refuse_if, ◌>>◌}
use marketplace_server.Sql.{Engine}
use marketplace_server.Base.{Bool, Option, String, List, Result, not, is_empty, ok, some, ℕ, err}
use marketplace_server.Database.Error.{StoreError, Check, plugin_not_found, version_not_available}
use marketplace_server.Database.Tables.{Tables}
use marketplace_server.Platform.{Platform}
use marketplace_server.Database.Tx.{Tx}
use marketplace_server.Auth.Principal.{Principal}
use marketplace_server.Auth.Action.{Action, ResourceRef}
use mathlib.Core.Option.{none}
unfoldable pub use marketplace_server.Handler.{◌>>=◌}
use marketplace_server.Handler

pub data PluginError : Type 0 where
  forbidden conflict gone invalid_input unavailable not_found : PluginError

-- The database, and what the Git storage holds.
pub record World (e : Engine) (W : Type 0) : Type 0 where
  pub tables : Tables e
  pub disk : W

-- `gitservice.RepositoryIdentity`
pub record RepositoryIdentity : Type 0 where
  pub id : String
  pub storage_key : String

pub record ProvisionedRepository : Type 0 where
  pub identity : RepositoryIdentity
  pub receipt : String

-- `ProvisionedRepository.Created`
abbrev pub created : ProvisionedRepository → Bool
created p = not (is_empty p.receipt)

-- `gitservice.PluginSourceInspection`; the snapshot is the list of its bytes.
pub record PluginSourceInspection : Type 0 where
  pub raw_tag_object_id : String
  pub commit_object_id : String
  pub manifest_digest : String
  pub manifest_snapshot : List ℕ

-- `RepositoryProvisioner` and `PluginSourceInspector`: a call may change the storage, and `none` is
-- an error.
pub record GitStorage (W : Type 0) : Type 0 where
  pub provision : RepositoryIdentity → W → Option ProvisionedRepository × W
  pub remove_provisioned : ProvisionedRepository → W → Bool × W
  pub inspect : String → String → String → W → Option PluginSourceInspection × W

-- The fields of `Service` that it is made with, and the platform. `authorize` is the authorizer's
-- answer to a request; `lock_plugin` says whether the effect lock on a plugin is granted; the
-- inspector and the browser may be absent.
pub record Service (e : Engine) (W : Type 0) : Type 0 where
  pub env : Platform
  pub authorize : Principal → Action → ResourceRef → Tables e → Bool
  pub git : GitStorage W
  pub lock_plugin : String → World e W → Bool
  pub has_inspector : Bool
  pub has_browser : Bool

abbrev pub Request : Engine → Type 0 → Type 0 → Type 0
Request e W A = Handler.Step PluginError (World e W) A

module _ {e : Engine} {W A : Type 0} where
  abbrev pub settled :
      (StoreError → PluginError)
      → World e W
      → Result StoreError (A × Tables e)
      → Result PluginError A × World e W
  settled f w (ok (a, t)) = (ok a, record w { tables = t })
  settled f w (err x) = (err (f x), w)

  -- A statement on the connection itself, which commits what it does.
  unfoldable pub exec : (StoreError → PluginError) → Tx (Tables e) A → Request e W A
  exec f m w = settled f w (m w.tables)

  -- A statement whose error the request looks at.
  abbrev pub looked :
      World e W
      → Result StoreError (A × Tables e)
      → Result PluginError (Result StoreError A) × World e W
  looked w (ok (a, t)) = (ok (ok a), record w { tables = t })
  looked w (err x) = (ok (err x), w)

  unfoldable pub attempt : Tx (Tables e) A → Request e W (Result StoreError A)
  attempt m w = looked w (m w.tables)

  abbrev pub given : PluginError → Option A → World e W → Result PluginError A × World e W
  given x (some a) w = (ok a, w)
  given x none w = (err x, w)

  -- A call of the Git storage, whose error is answered as the given one.
  unfoldable pub on_disk : PluginError → (W → Option A × W) → Request e W A
  on_disk x m w = given x (m w.disk).0 (record w { disk = (m w.disk).1 })

module _ {e : Engine} {W : Type 0} where
  abbrev pub checked_tables :
      (StoreError → PluginError)
      → World e W
      → Check
      → Tables e
      → Result PluginError (Unit {0}) × World e W
  checked_tables f w none t = (ok tt, record w { tables = t })
  checked_tables f w (some x) t = (err (f x), record w { tables = t })

  -- A method that runs a transaction of its own.
  unfoldable pub run :
      (StoreError → PluginError) → (Tables e → Check × Tables e) → Request e W (Unit {0})
  run f m w = checked_tables f w (m w.tables).0 (m w.tables).1

  -- A method that runs a transaction of its own, whose error the request looks at.
  unfoldable pub checked_run : (Tables e → Check × Tables e) → Request e W Check
  checked_run m w = (ok (m w.tables).0, record w { tables = (m w.tables).1 })

-- `wrapUnavailable` and plain `ErrUnavailable`; the text of the error is not modelled.
abbrev pub as_unavailable : StoreError → PluginError
as_unavailable _ = unavailable

-- `mapMutationLookup`, and what `exactAggregate` makes of an error of `FindBySlug`.
abbrev pub lookup_error : StoreError → PluginError
lookup_error plugin_not_found = not_found
lookup_error _ = unavailable

-- What the default version methods make of an error of the repository.
abbrev pub default_error : StoreError → PluginError
default_error version_not_available = conflict
default_error plugin_not_found = not_found
default_error _ = unavailable
