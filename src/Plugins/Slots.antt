-- ===== src/Plugins/Slots.antt =====
-- Where the tables of mod/backend/domain/plugin stand in the database.
use marketplace_server.Plugins.Model.{
  Plugin, Repository, PluginVersion, PluginVersionHistory, RepositoryOrphanCleanup, ReceiveBatch,
  ReceiveIntent, ProjectionArtifact, RevisionProjectionPointer, RevisionProjectionTransition,
  ProjectionGcJob,
}
use marketplace_server.Sql.{Engine}
use marketplace_server.Database.Tables.{Slot}
use marketplace_server.Base.{refl}

module _ (e : Engine) where
  abbrev pub plugins : Slot e Plugin
  plugins = record {
    get = λ s. s.plugins;
    put = λ s t. record s { plugins = t };
    rows = λ r. r.plugins;
    set = λ r l. record r { plugins = l };
    view-get = λ s. refl;
    view-put = λ s t. refl;
  }

  abbrev pub repositories : Slot e Repository
  repositories = record {
    get = λ s. s.repositories;
    put = λ s t. record s { repositories = t };
    rows = λ r. r.repositories;
    set = λ r l. record r { repositories = l };
    view-get = λ s. refl;
    view-put = λ s t. refl;
  }

  abbrev pub plugin_versions : Slot e PluginVersion
  plugin_versions = record {
    get = λ s. s.plugin_versions;
    put = λ s t. record s { plugin_versions = t };
    rows = λ r. r.plugin_versions;
    set = λ r l. record r { plugin_versions = l };
    view-get = λ s. refl;
    view-put = λ s t. refl;
  }

  abbrev pub plugin_version_history : Slot e PluginVersionHistory
  plugin_version_history = record {
    get = λ s. s.plugin_version_history;
    put = λ s t. record s { plugin_version_history = t };
    rows = λ r. r.plugin_version_history;
    set = λ r l. record r { plugin_version_history = l };
    view-get = λ s. refl;
    view-put = λ s t. refl;
  }

  abbrev pub orphan_cleanups : Slot e RepositoryOrphanCleanup
  orphan_cleanups = record {
    get = λ s. s.orphan_cleanups;
    put = λ s t. record s { orphan_cleanups = t };
    rows = λ r. r.orphan_cleanups;
    set = λ r l. record r { orphan_cleanups = l };
    view-get = λ s. refl;
    view-put = λ s t. refl;
  }

  abbrev pub receive_batches : Slot e ReceiveBatch
  receive_batches = record {
    get = λ s. s.receive_batches;
    put = λ s t. record s { receive_batches = t };
    rows = λ r. r.receive_batches;
    set = λ r l. record r { receive_batches = l };
    view-get = λ s. refl;
    view-put = λ s t. refl;
  }

  abbrev pub receive_intents : Slot e ReceiveIntent
  receive_intents = record {
    get = λ s. s.receive_intents;
    put = λ s t. record s { receive_intents = t };
    rows = λ r. r.receive_intents;
    set = λ r l. record r { receive_intents = l };
    view-get = λ s. refl;
    view-put = λ s t. refl;
  }

  abbrev pub projection_artifacts : Slot e ProjectionArtifact
  projection_artifacts = record {
    get = λ s. s.projection_artifacts;
    put = λ s t. record s { projection_artifacts = t };
    rows = λ r. r.projection_artifacts;
    set = λ r l. record r { projection_artifacts = l };
    view-get = λ s. refl;
    view-put = λ s t. refl;
  }

  abbrev pub pointers : Slot e RevisionProjectionPointer
  pointers = record {
    get = λ s. s.pointers;
    put = λ s t. record s { pointers = t };
    rows = λ r. r.pointers;
    set = λ r l. record r { pointers = l };
    view-get = λ s. refl;
    view-put = λ s t. refl;
  }

  abbrev pub transitions : Slot e RevisionProjectionTransition
  transitions = record {
    get = λ s. s.transitions;
    put = λ s t. record s { transitions = t };
    rows = λ r. r.transitions;
    set = λ r l. record r { transitions = l };
    view-get = λ s. refl;
    view-put = λ s t. refl;
  }

  abbrev pub gc_jobs : Slot e ProjectionGcJob
  gc_jobs = record {
    get = λ s. s.gc_jobs;
    put = λ s t. record s { gc_jobs = t };
    rows = λ r. r.gc_jobs;
    set = λ r l. record r { gc_jobs = l };
    view-get = λ s. refl;
    view-put = λ s t. refl;
  }
