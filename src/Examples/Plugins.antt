-- ===== src/Examples/Plugins.antt =====
-- A namespace with one plugin, which has one published version; ann may do everything, and others only
-- read.
use marketplace_server.Plugins.Step.{
  ◌>>=◌, GitStorage, PluginSourceInspection, Service, World, exec,
}
use marketplace_server.Database.Tx
use marketplace_server.Plugins.Publish.{perform, PublishInput, archival, publication}
use marketplace_server.Plugins.Denied.{is_refused, is_admitted, plugin_request_denied}
use marketplace_server.Base.{
  [], ◌∷◌, refl, none, some, true, false, ◌==◌, String, ◌≡◌, Result, ok, err,
}
use marketplace_server.Plugins.Model.{Plugin, PluginVersion}
use marketplace_server.Plugins.Checks.{same_bytes, valid_canonical_tag, valid_slug}
use marketplace_server.Plugins.Lasting.{
  IsLifecycle, IsPublished, perform-IsLifecycle, perform-IsPublished,
}
use marketplace_server.Auth.Principal.{Principal, PrincipalKind, CredentialKind}
use marketplace_server.Examples.Engines.{list_engine, empty_tables, plain_platform}
use marketplace_server.Plugins.Publishing.{
  new_version, publish_body, publish_version, publish_new, or_contested, note_history, touch_plugin,
}
use marketplace_server.Database.Tables.{view, Tables}
use marketplace_server.Plugins.Lookup.{exact_aggregate}
use marketplace_server.Plugins.Store.{
  take_namespace, find_by_slug, Aggregate, unresolved_receive_exists,
}
use marketplace_server.Auth.Scope.{unrestricted_scopes}
use marketplace_server.Database.Statement.{select, join, update, insert, select_count}
use marketplace_server.Identity.Slug.{canonical_identity_slug, is_word_char}
use marketplace_server.Identity.Text.{trim_space}
use marketplace_server.Auth.Action.{PluginVisibility, PluginStatus, RepositoryOperationalStatus}
use marketplace_server.Identity.Model.{NamespaceKind, StoreError}
use marketplace_server.Plugins.Published.{HasPublished, publish_body-HasPublished}

abbrev pub user_named : String → Principal
user_named id = record {
  kind = PrincipalKind.user;
  user_id = id;
  username = id;
  credential = CredentialKind.jwt;
  scopes = unrestricted_scopes;
}

abbrev pub oid : String
oid = "0123456789abcdef0123456789abcdef01234567"

abbrev source : PluginSourceInspection
source = record {
  raw_tag_object_id = oid;
  commit_object_id = oid;
  manifest_digest = "0123456789abcdef0123456789abcdef0123456789abcdef0123456789abcdef";
  manifest_snapshot = 123 ∷ 125 ∷ [];
}

-- A Git storage that holds nothing of its own.
abbrev plain_storage : GitStorage (Unit {0})
plain_storage = record {
  provision = λ i d. (some (record { identity = i; receipt = "made" }), d);
  remove_provisioned = λ i d. (true, d);
  inspect = λ id tag slug d. (some source, d);
}

abbrev pub shop : Service list_engine (Unit {0})
shop = record {
  env = plain_platform;
  authorize = λ p action resource t. p.user_id == "ann";
  git = plain_storage;
  lock_plugin = λ id w. true;
  has_inspector = true;
  has_browser = true;
}

abbrev tool : Plugin
tool = record {
  id = "p1";
  namespace_id = "n1";
  slug = "tool";
  description = "";
  visibility = PluginVisibility.public;
  status = PluginStatus.active;
  archived_from = none;
  default_version_tag = none;
  created_at = 1;
  updated_at = 1;
}

abbrev pub tool_version : PluginVersion
tool_version = new_version "v1" "p1" "v1.0.0" source 2

abbrev pub stocked : World list_engine (Unit {0})
stocked = record {
  tables = record empty_tables {
    namespaces =
        record {
          id = "n1";
          kind = NamespaceKind.team;
          slug = "acme";
          display_name = "Acme";
          owner_user_id = none;
          created_at = 1;
          updated_at = 1;
        }
        ∷ [];
    plugins = tool ∷ [];
    repositories =
        record {
          id = "p1";
          storage_key = "p1";
          status = RepositoryOperationalStatus.ready;
          created_at = 1;
          updated_at = 1;
        }
        ∷ [];
    plugin_versions = tool_version ∷ [];
  };
  disk = tt;
}

abbrev pub next_version : PublishInput
next_version = record {
  tag = "v1.1.0-rc.1";
  make_default = true;
  ids = record { version = "v2"; history = "h1"; correlation = "c1" };
  now = 9;
}

canonical_tags :
    (valid_canonical_tag "v1.1.0-rc.1+build.5" ≡ true)
    × (valid_canonical_tag "v1.0.0-0a" ≡ true)
    × (valid_canonical_tag "v1.0.0-01" ≡ false)
    × (valid_canonical_tag "v01.0.0" ≡ false)
    × (valid_canonical_tag "v1.0" ≡ false)
unfolding valid_canonical_tag
canonical_tags = (refl, refl, refl, refl, refl)

perform-IsLifecycle_example :
    IsLifecycle
      (view list_engine (perform shop (user_named "ann") "acme" "tool" 9 archival stocked).1.tables)
perform-IsLifecycle_example =
    perform-IsLifecycle shop (user_named "ann") "acme" "tool" 9 archival stocked refl

perform-IsPublished_example : IsPublished tool_version (
    view list_engine
      (perform shop (user_named "ann") "acme" "tool" 9 (publication next_version) stocked).1.tables)
unfolding same_bytes
perform-IsPublished_example =
    perform-IsPublished shop (user_named "ann") "acme" "tool" 9 (publication next_version)
      tool_version stocked refl

plugin_request_denied_example :
    (is_refused (perform shop (user_named "bob") "acme" "tool" 9 archival stocked).0 ≡ true)
    × ((perform shop (user_named "bob") "acme" "tool" 9 archival stocked).1 ≡ stocked)
unfolding is_admitted exact_aggregate exec take_namespace find_by_slug Tx.◌>>=◌ ◌>>=◌ select join
    valid_slug canonical_identity_slug trim_space is_word_char
plugin_request_denied_example =
    plugin_request_denied shop (user_named "bob") "acme" "tool" 9 archival stocked refl

abbrev tables_after : Result StoreError (PluginVersion × Tables list_engine) → Tables list_engine
tables_after (ok (_, t)) = t
tables_after (err _) = empty_tables

abbrev tool_aggregate : Aggregate
tool_aggregate = record {
  plugin = tool;
  repository = record {
    id = "p1";
    storage_key = "p1";
    status = RepositoryOperationalStatus.ready;
    created_at = 1;
    updated_at = 1;
  };
}

publish_body-HasPublished_example : HasPublished "p1" "v1.1.0-rc.1" source (
    view list_engine (
      tables_after (
        publish_body plain_platform next_version.ids "n1" tool_aggregate "v1.1.0-rc.1" true source 9
          stocked.tables)))
unfolding publish_body publish_version publish_new or_contested note_history touch_plugin
    unresolved_receive_exists select_count select insert update Tx.◌>>=◌
publish_body-HasPublished_example =
    publish_body-HasPublished plain_platform next_version.ids "n1" tool_aggregate "v1.1.0-rc.1" true
      source 9 stocked.tables
      (tables_after (
        publish_body plain_platform next_version.ids "n1" tool_aggregate "v1.1.0-rc.1" true source 9
          stocked.tables))
      (new_version "v2" "p1" "v1.1.0-rc.1" source 9) refl
