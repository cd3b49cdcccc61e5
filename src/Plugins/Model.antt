-- ===== src/Plugins/Model.antt =====
-- mod/backend/domain/plugin/model.go: the rows of plugins, their repositories, versions and history, and
-- of the batches by which Git moves and deletes published tags.
use marketplace_server.Auth.Action.{PluginVisibility, PluginStatus, RepositoryOperationalStatus}
use marketplace_server.Base.{String, ℕ, Bool, Option, List, true, false}

pub data VersionStatus : Type 0 where
  available deleted : VersionStatus
  unlisted : String → VersionStatus

pub data VersionHistoryOperation : Type 0 where
  publish move delete restore : VersionHistoryOperation

pub data OrphanCleanupState : Type 0 where
  pending running completed manual_required : OrphanCleanupState

-- The states of a batch and of its intents.
pub data ReceiveState : Type 0 where
  prepared finalizing completed aborted manual_required : ReceiveState
  unlisted : String → ReceiveState

pub data ReceiveOperation : Type 0 where
  move delete : ReceiveOperation
  unlisted : String → ReceiveOperation

pub data ArtifactKind : Type 0 where
  plugin marketplace : ArtifactKind

pub data ArtifactState : Type 0 where
  staged ready failed : ArtifactState
  unlisted : String → ArtifactState

pub data TransitionState : Type 0 where
  prepared pending completed aborted manual_required : TransitionState
  unlisted : String → TransitionState

pub data ProjectionGcState : Type 0 where
  pending running completed manual_required : ProjectionGcState

pub record Plugin : Type 0 where
  pub id : String
  pub namespace_id : String
  pub slug : String
  pub description : String
  pub visibility : PluginVisibility
  pub status : PluginStatus
  pub archived_from : Option PluginStatus
  pub default_version_tag : Option String
  pub created_at : ℕ
  pub updated_at : ℕ

pub record Repository : Type 0 where
  pub id : String
  pub storage_key : String
  pub status : RepositoryOperationalStatus
  pub created_at : ℕ
  pub updated_at : ℕ

-- A manifest is the list of its bytes; Go's nil is the empty one.
pub record PluginVersion : Type 0 where
  pub id : String
  pub plugin_id : String
  pub tag : String
  pub status : VersionStatus
  pub raw_tag_object_id : Option String
  pub commit_sha : Option String
  pub manifest_digest : Option String
  pub manifest_snapshot : List ℕ
  pub published_at : ℕ
  pub updated_at : ℕ
  pub deleted_at : Option ℕ
  pub created_at : ℕ

pub record PluginVersionHistory : Type 0 where
  pub id : String
  pub plugin_id : String
  pub tag : String
  pub operation : VersionHistoryOperation
  pub old_commit_sha : Option String
  pub new_commit_sha : Option String
  pub intent_id : Option String
  pub correlation_id : String
  pub created_at : ℕ

pub record RepositoryOrphanCleanup : Type 0 where
  pub id : String
  pub plugin_id : String
  pub storage_key : String
  pub state : OrphanCleanupState
  pub attempts : ℕ
  pub safe_error : String
  pub next_attempt_at : Option ℕ
  pub created_at : ℕ
  pub updated_at : ℕ
  pub completed_at : Option ℕ

pub record ReceiveBatch : Type 0 where
  pub id : String
  pub plugin_id : String
  pub state : ReceiveState
  pub correlation_id : String
  pub attempts : ℕ
  pub safe_error : String
  pub created_at : ℕ
  pub updated_at : ℕ
  pub completed_at : Option ℕ

pub record ReceiveIntent : Type 0 where
  pub id : String
  pub batch_id : String
  pub plugin_id : String
  pub operation : ReceiveOperation
  pub tag : String
  pub expected_old_object_id : String
  pub proposed_new_object_id : Option String
  pub expected_old_commit_sha : String
  pub proposed_new_commit_sha : Option String
  pub proposed_manifest_digest : Option String
  pub proposed_manifest_snapshot : List ℕ
  pub expected_version_status : VersionStatus
  pub state : ReceiveState
  pub attempts : ℕ
  pub safe_error : String
  pub created_at : ℕ
  pub updated_at : ℕ
  pub completed_at : Option ℕ

pub record ProjectionArtifact : Type 0 where
  pub id : String
  pub kind : ArtifactKind
  pub plugin_id : String
  pub tag : String
  pub source_object_id : String
  pub source_commit_sha : String
  pub source_tree_sha : String
  pub revision_id : Option String
  pub content_digest : String
  pub distribution_sha : String
  pub storage_key : String
  pub state : ArtifactState
  pub safe_error : String
  pub created_at : ℕ
  pub updated_at : ℕ
  pub ready_at : Option ℕ

pub record RevisionProjectionPointer : Type 0 where
  pub id : String
  pub revision_id : String
  pub plugin_id : String
  pub tag : String
  pub artifact_id : Option String
  pub generation : ℕ
  pub available : Bool
  pub updated_at : ℕ

pub record RevisionProjectionTransition : Type 0 where
  pub id : String
  pub intent_id : String
  pub revision_id : String
  pub pointer_id : String
  pub expected_generation : ℕ
  pub current_artifact_id : Option String
  pub staged_artifact_id : Option String
  pub state : TransitionState
  pub safe_error : String
  pub created_at : ℕ
  pub updated_at : ℕ
  pub completed_at : Option ℕ

pub record ProjectionGcJob : Type 0 where
  pub id : String
  pub artifact_id : String
  pub state : ProjectionGcState
  pub attempts : ℕ
  pub safe_error : String
  pub next_attempt_at : Option ℕ
  pub created_at : ℕ
  pub updated_at : ℕ
  pub completed_at : Option ℕ

abbrev pub is_available : VersionStatus → Bool
is_available available = true
is_available _ = false

abbrev pub is_deleted : VersionStatus → Bool
is_deleted deleted = true
is_deleted _ = false

abbrev pub is_prepared : ReceiveState → Bool
is_prepared ReceiveState.prepared = true
is_prepared _ = false

abbrev pub is_finalizing : ReceiveState → Bool
is_finalizing finalizing = true
is_finalizing _ = false

abbrev pub is_manual_required : ReceiveState → Bool
is_manual_required ReceiveState.manual_required = true
is_manual_required _ = false
