-- ===== src/Database/Tables.antt =====
-- The tables of the one database behind the backend. `view` is what the tables hold; a theorem about
-- a method is about its view.
use marketplace_server.Sql.{Engine}
use marketplace_server.Identity.Model.{
  User, Namespace, UserGroupMembership, TeamMembership, TeamInvitation, PersonalAccessToken,
}
use marketplace_server.Plugins.Model.{
  Plugin, Repository, PluginVersion, PluginVersionHistory, RepositoryOrphanCleanup, ReceiveBatch,
  ReceiveIntent, ProjectionArtifact, RevisionProjectionPointer, RevisionProjectionTransition,
  ProjectionGcJob,
}
use marketplace_server.Base.{List, ◌≡◌}

pub record Tables (e : Engine) : Type 0 where
  pub users : e.Table User
  pub namespaces : e.Table Namespace
  pub group_memberships : e.Table UserGroupMembership
  pub team_memberships : e.Table TeamMembership
  pub team_invitations : e.Table TeamInvitation
  pub tokens : e.Table PersonalAccessToken
  pub plugins : e.Table Plugin
  pub repositories : e.Table Repository
  pub plugin_versions : e.Table PluginVersion
  pub plugin_version_history : e.Table PluginVersionHistory
  pub orphan_cleanups : e.Table RepositoryOrphanCleanup
  pub receive_batches : e.Table ReceiveBatch
  pub receive_intents : e.Table ReceiveIntent
  pub projection_artifacts : e.Table ProjectionArtifact
  pub pointers : e.Table RevisionProjectionPointer
  pub transitions : e.Table RevisionProjectionTransition
  pub gc_jobs : e.Table ProjectionGcJob

pub record Rows : Type 0 where
  pub users : List User
  pub namespaces : List Namespace
  pub group_memberships : List UserGroupMembership
  pub team_memberships : List TeamMembership
  pub team_invitations : List TeamInvitation
  pub tokens : List PersonalAccessToken
  pub plugins : List Plugin
  pub repositories : List Repository
  pub plugin_versions : List PluginVersion
  pub plugin_version_history : List PluginVersionHistory
  pub orphan_cleanups : List RepositoryOrphanCleanup
  pub receive_batches : List ReceiveBatch
  pub receive_intents : List ReceiveIntent
  pub projection_artifacts : List ProjectionArtifact
  pub pointers : List RevisionProjectionPointer
  pub transitions : List RevisionProjectionTransition
  pub gc_jobs : List ProjectionGcJob

module _ (e : Engine) where
  abbrev pub view : Tables e → Rows
  view s = record {
    users = e.rows s.users;
    namespaces = e.rows s.namespaces;
    group_memberships = e.rows s.group_memberships;
    team_memberships = e.rows s.team_memberships;
    team_invitations = e.rows s.team_invitations;
    tokens = e.rows s.tokens;
    plugins = e.rows s.plugins;
    repositories = e.rows s.repositories;
    plugin_versions = e.rows s.plugin_versions;
    plugin_version_history = e.rows s.plugin_version_history;
    orphan_cleanups = e.rows s.orphan_cleanups;
    receive_batches = e.rows s.receive_batches;
    receive_intents = e.rows s.receive_intents;
    projection_artifacts = e.rows s.projection_artifacts;
    pointers = e.rows s.pointers;
    transitions = e.rows s.transitions;
    gc_jobs = e.rows s.gc_jobs;
  }

-- One table: where it stands in the tables and in their view.
pub record Slot (e : Engine) (A : Type 0) : Type 0 where
  pub get : Tables e → e.Table A
  pub put : Tables e → e.Table A → Tables e
  pub rows : Rows → List A
  pub set : Rows → List A → Rows
  pub view-get : (s : Tables e) → rows (view e s) ≡ e.rows (get s)
  pub view-put : (s : Tables e) (t : e.Table A) → view e (put s t) ≡ set (view e s) (e.rows t)
