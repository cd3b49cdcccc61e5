-- ===== src/Receive/Prepare.antt =====
-- mod/backend/domain/plugin/receive/coordinator.go: the transaction of `persistPrepared`, and the write
-- of `Resolve` that stands outside of a transaction. `batch_id` and the identifiers of `Fresh` are
-- what `uuid.NewString()` answers.
use marketplace_server.Base.{
  [], ◌∷◌, List, String, Bool, ℕ, Option, if◌then◌else◌, none, some, ◌==◌, is_some, ◌&&◌, ◌||◌, eqb,
  false,
}
use marketplace_server.Sql.{Engine}
use marketplace_server.Database.Tables.{Tables}
use marketplace_server.Database.Error.{Check}
use marketplace_server.Database.Tx.{Tx, transaction, pure, ◌>>=◌, ◌>>◌}
use marketplace_server.Receive.Writes.{Fresh, update_exact, is_move, is_nullable_id}
use marketplace_server.Plugins.Model.{
  PluginVersion, ProjectionArtifact, ReceiveBatch, ReceiveIntent, ReceiveOperation,
  RevisionProjectionPointer, RevisionProjectionTransition, ArtifactKind, ReceiveState,
  TransitionState, failed, staged, available,
}
use marketplace_server.Database.Statement.{insert, update}
use marketplace_server.Plugins.Slots.{
  pointers, projection_artifacts, receive_batches, receive_intents, transitions,
}

-- pkg/gitservice/receive.go
pub record ReceiveTagCommand : Type 0 where
  pub tag : String
  pub ref_name : String
  pub operation : ReceiveOperation
  pub old_object_id : String
  pub new_object_id : String
  pub old_commit_object_id : String
  pub new_commit_object_id : String
  pub new_manifest_digest : String
  pub new_manifest_snapshot : List ℕ

pub data ProjectionKind : Type 0 where
  plugin marketplace : ProjectionKind
  unlisted : String → ProjectionKind

pub data SourceTagType : Type 0 where
  lightweight annotated : SourceTagType
  unlisted : String → SourceTagType

-- pkg/gitservice/distribution.go
pub record ImmutableProjection : Type 0 where
  pub kind : ProjectionKind
  pub storage_key : String

pub record PluginProjectionResult : Type 0 where
  pub projection : ImmutableProjection
  pub tag_name : String
  pub source_tag_type : SourceTagType
  pub source_tag_object_id : String
  pub source_commit_sha : String
  pub source_tree_sha : String
  pub distribution_sha : String
  pub content_digest : String

pub record RevisionPlan : Type 0 where
  pub revision_id : String
  pub published_at : ℕ
  pub pointer : RevisionProjectionPointer

pub record BuiltProjection : Type 0 where
  pub revision : RevisionPlan
  pub result : PluginProjectionResult

pub record ReceivePlan : Type 0 where
  pub command : ReceiveTagCommand
  pub version : PluginVersion
  pub intent_id : String
  pub revisions : List RevisionPlan
  pub projections : List BuiltProjection

-- The map `projectionByRevision`, in which a later projection of a revision replaces an earlier one.
unfoldable pub projection_of : String → List BuiltProjection → Option PluginProjectionResult
projection_of revision_id [] = none
projection_of revision_id (b ∷ built) =
    let later = projection_of revision_id built in
    if is_some later
    then later
    else if b.revision.revision_id == revision_id
    then some b.result
    else none

-- What only a move proposes.
abbrev proposed : ReceiveOperation → String → Option String
proposed operation text = if is_move operation then some text else none

unfoldable pub prepared_batch : String → String → String → ℕ → ReceiveBatch
prepared_batch batch_id plugin_id session_id now = record {
  id = batch_id;
  plugin_id = plugin_id;
  state = ReceiveState.prepared;
  correlation_id = session_id;
  attempts = 0;
  safe_error = "";
  created_at = now;
  updated_at = now;
  completed_at = none;
}

unfoldable pub prepared_intent : String → String → ReceivePlan → ℕ → ReceiveIntent
prepared_intent batch_id plugin_id plan now =
    let command = plan.command in
    record {
      id = plan.intent_id;
      batch_id = batch_id;
      plugin_id = plugin_id;
      operation = command.operation;
      tag = command.tag;
      expected_old_object_id = command.old_object_id;
      proposed_new_object_id = proposed command.operation command.new_object_id;
      expected_old_commit_sha = command.old_commit_object_id;
      proposed_new_commit_sha = proposed command.operation command.new_commit_object_id;
      proposed_manifest_digest = proposed command.operation command.new_manifest_digest;
      proposed_manifest_snapshot =
          if is_move command.operation then command.new_manifest_snapshot else [];
      expected_version_status = available;
      state = ReceiveState.prepared;
      attempts = 0;
      safe_error = "";
      created_at = now;
      updated_at = now;
      completed_at = none;
    }

unfoldable pub staged_artifact :
    Fresh → String → ReceivePlan → String → PluginProjectionResult → ℕ → ProjectionArtifact
staged_artifact fresh plugin_id plan revision_id result now = record {
  id = fresh.artifact plan.intent_id revision_id;
  kind = ArtifactKind.plugin;
  plugin_id = plugin_id;
  tag = plan.command.tag;
  source_object_id = plan.command.new_object_id;
  source_commit_sha = result.source_commit_sha;
  source_tree_sha = result.source_tree_sha;
  revision_id = some revision_id;
  content_digest = result.content_digest;
  distribution_sha = result.distribution_sha;
  storage_key = result.projection.storage_key;
  state = staged;
  safe_error = "";
  created_at = now;
  updated_at = now;
  ready_at = none;
}

unfoldable pub pending_transition :
    Fresh → ReceivePlan → RevisionPlan → Option String → ℕ → RevisionProjectionTransition
pending_transition fresh plan revision artifact_id now = record {
  id = fresh.transition plan.intent_id revision.revision_id;
  intent_id = plan.intent_id;
  revision_id = revision.revision_id;
  pointer_id = revision.pointer.id;
  expected_generation = revision.pointer.generation;
  current_artifact_id = revision.pointer.artifact_id;
  staged_artifact_id = artifact_id;
  state = TransitionState.pending;
  safe_error = "";
  created_at = now;
  updated_at = now;
  completed_at = none;
}

-- The unique indexes of model.go.
abbrev clashes_intent : ReceiveIntent → ReceiveIntent → Bool
clashes_intent new i = i.id == new.id || (i.batch_id == new.batch_id && i.tag == new.tag)

abbrev clashes_artifact : ProjectionArtifact → ProjectionArtifact → Bool
clashes_artifact new a = a.id == new.id || a.storage_key == new.storage_key

abbrev clashes_transition : RevisionProjectionTransition → RevisionProjectionTransition → Bool
clashes_transition new t =
    t.id == new.id || (t.intent_id == new.intent_id && t.revision_id == new.revision_id)

module _ {e : Engine} where
  -- The artifact of a revision, where one was built.
  unfoldable pub stage_artifact :
      Fresh
      → String
      → ReceivePlan
      → String
      → Option PluginProjectionResult
      → ℕ
      → Tx (Tables e) (Option String)
  unfolding staged_artifact
  stage_artifact fresh plugin_id plan revision_id none now = pure none
  stage_artifact fresh plugin_id plan revision_id (some result) now = do
    let artifact = staged_artifact fresh plugin_id plan revision_id result now
    insert (projection_artifacts e) (clashes_artifact artifact) artifact
    pure (some artifact.id)

  -- The pointer as `preflightPlans` read it, which is no longer served.
  unfoldable pub withhold_pointer : RevisionProjectionPointer → ℕ → Tx (Tables e) (Unit {0})
  withhold_pointer pointer now =
      update_exact (pointers e)
        (λ p.
          p.id == pointer.id
          && eqb p.generation pointer.generation
          && p.available
          && is_nullable_id pointer.artifact_id p.artifact_id)
        (λ p. record p { available = false; updated_at = now })

  unfoldable pub prepare_revisions :
      Fresh → String → ReceivePlan → List RevisionPlan → ℕ → Tx (Tables e) (Unit {0})
  unfolding pending_transition
  prepare_revisions fresh plugin_id plan [] now = pure tt
  prepare_revisions fresh plugin_id plan (revision ∷ revisions) now = do
    artifact_id ←
        stage_artifact fresh plugin_id plan revision.revision_id
          (projection_of revision.revision_id plan.projections) now
    let transition = pending_transition fresh plan revision artifact_id now
    insert (transitions e) (clashes_transition transition) transition
    withhold_pointer revision.pointer now
    prepare_revisions fresh plugin_id plan revisions now

  unfoldable pub prepare_plans :
      Fresh → String → String → List ReceivePlan → ℕ → Tx (Tables e) (Unit {0})
  unfolding prepared_intent
  prepare_plans fresh batch_id plugin_id [] now = pure tt
  prepare_plans fresh batch_id plugin_id (plan ∷ plans) now = do
    let intent = prepared_intent batch_id plugin_id plan now
    insert (receive_intents e) (clashes_intent intent) intent
    prepare_revisions fresh plugin_id plan plan.revisions now
    prepare_plans fresh batch_id plugin_id plans now

  unfoldable pub persist_prepared_body :
      Fresh → String → String → String → List ReceivePlan → ℕ → Tx (Tables e) (Unit {0})
  unfolding prepared_batch
  persist_prepared_body fresh batch_id plugin_id session_id plans now = do
    let batch = prepared_batch batch_id plugin_id session_id now
    insert (receive_batches e) (λ b. b.id == batch.id) batch
    prepare_plans fresh batch_id plugin_id plans now

  unfoldable pub persist_prepared :
      Fresh → String → String → String → List ReceivePlan → ℕ → Tables e → Check × Tables e
  unfolding persist_prepared_body
  persist_prepared fresh batch_id plugin_id session_id plans now =
      transaction (persist_prepared_body fresh batch_id plugin_id session_id plans now)

  -- The artifact whose verification failed, a statement of its own.
  unfoldable pub fail_artifact : String → ℕ → Tables e → Check × Tables e
  fail_artifact artifact_id now = transaction (do
    _ ←
        update (projection_artifacts e) (λ a. a.id == artifact_id)
          (λ a. record a {
            state = failed;
            safe_error = "digest_verification_failed";
            updated_at = now;
          })
    pure tt)
