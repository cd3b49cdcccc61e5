-- ===== src/Receive/Resolve.antt =====
-- mod/backend/domain/plugin/receive/coordinator.go: the transaction that completes or aborts a batch.
use marketplace_server.Database.Tx.{◌>>=◌, ◌>>◌, pure, raise, Tx, transaction, raise_if}
use marketplace_server.Database.Error.{manual_required, Check, database}
use marketplace_server.Base.{
  [], ◌∷◌, Bool, ℕ, List, String, ◌&&◌, filter, Option, true, ◌==◌, some, ◌+◌, eqb, none, length,
}
use marketplace_server.Plugins.Model.{
  ReceiveIntent, PluginVersion, ReceiveOperation, ReceiveState, ReceiveBatch,
  RevisionProjectionTransition, VersionHistoryOperation, TransitionState, deleted,
}
use marketplace_server.Git.Resolution.{ReceiveDisposition}
use marketplace_server.Sql.{Engine}
use marketplace_server.Receive.Writes.{
  Fresh, enqueue_some, required, update_exact, update_intent, update_pointer,
  version_status_spelling, make_ready, replaced, is_pending, update_transition,
  is_terminal_batch_state,
}
use marketplace_server.Plugins.Store.{is_version, is_tag}
use marketplace_server.Database.Tables.{Tables}
use marketplace_server.Database.Statement.{insert, select, update}
use marketplace_server.Plugins.Slots.{
  plugin_version_history, receive_batches, plugin_versions, plugins,
}
use marketplace_server.Identity.Store.{first_or}
use mathlib.Core.Bool.{false}

-- The rows that `versionQuery` matches.
abbrev pub is_expected : ReceiveIntent → PluginVersion → Bool
is_expected i v =
    is_version i.plugin_id i.tag v
    && version_status_spelling v.status == version_status_spelling i.expected_version_status
    && is_tag v.raw_tag_object_id i.expected_old_object_id
    && is_tag v.commit_sha i.expected_old_commit_sha

abbrev pub final_state : ReceiveDisposition → ReceiveState
final_state ReceiveDisposition.aborted = ReceiveState.aborted
final_state _ = ReceiveState.completed

module _ {e : Engine} where
  unfoldable pub point_on :
      ReceiveOperation → RevisionProjectionTransition → ℕ → Tx (Tables e) (Unit {0})
  point_on ReceiveOperation.move t now = do
    artifact ← required t.staged_artifact_id
    make_ready artifact now
    update_pointer t (λ p. record p {
      generation = t.expected_generation + 1;
      updated_at = now;
      artifact_id = some artifact;
      available = true;
    })
  point_on ReceiveOperation.delete t now = update_pointer t (λ p. record p {
    generation = t.expected_generation + 1;
    updated_at = now;
    artifact_id = none;
    available = false;
  })
  point_on (ReceiveOperation.unlisted _) t now = raise manual_required

  -- The loop of `completeIntent` over the transitions.
  unfoldable pub complete_transitions :
      Fresh → ReceiveOperation → List RevisionProjectionTransition → ℕ → Tx (Tables e) (Unit {0})
  complete_transitions fresh operation [] now = pure tt
  complete_transitions fresh operation (t ∷ ts) now = do
    point_on operation t now
    enqueue_some fresh (replaced t.current_artifact_id t.staged_artifact_id) now
    update_transition t.id TransitionState.completed now
    complete_transitions fresh operation ts now

  unfoldable pub move_version :
      ReceiveIntent → ℕ → Tx (Tables e) (VersionHistoryOperation × Option String)
  move_version i now = do
    object ← required i.proposed_new_object_id
    commit ← required i.proposed_new_commit_sha
    digest ← required i.proposed_manifest_digest
    raise_if (eqb (length i.proposed_manifest_snapshot) 0) manual_required
    update_exact (plugin_versions e) (is_expected i) (λ v. record v {
      raw_tag_object_id = some object;
      commit_sha = some commit;
      manifest_digest = some digest;
      manifest_snapshot = i.proposed_manifest_snapshot;
      updated_at = now;
    })
    pure (VersionHistoryOperation.move, some commit)

  unfoldable pub delete_version :
      ReceiveIntent → ℕ → Tx (Tables e) (VersionHistoryOperation × Option String)
  delete_version i now = do
    update_exact (plugin_versions e) (is_expected i) (λ v. record v {
      status = deleted;
      raw_tag_object_id = none;
      commit_sha = none;
      manifest_digest = none;
      manifest_snapshot = [];
      deleted_at = some now;
      updated_at = now;
    })
    _ ←
        update (plugins e) (λ p. p.id == i.plugin_id && is_tag p.default_version_tag i.tag)
          (λ p. record p { default_version_tag = none; updated_at = now })
    pure (VersionHistoryOperation.delete, none)

  unfoldable pub change_version :
      ReceiveOperation → ReceiveIntent → ℕ → Tx (Tables e) (VersionHistoryOperation × Option String)
  change_version ReceiveOperation.move i now = move_version i now
  change_version ReceiveOperation.delete i now = delete_version i now
  change_version (ReceiveOperation.unlisted _) i now = raise manual_required

  -- `completeIntent`
  unfoldable pub complete_intent :
      Fresh
      → ReceiveBatch
      → ReceiveIntent
      → List RevisionProjectionTransition
      → ℕ
      → Tx (Tables e) (Unit {0})
  complete_intent fresh batch i ts now = do
    (operation, new_commit) ← change_version i.operation i now
    insert (plugin_version_history e) (λ h. h.id == fresh.history i.id)
        (record {
          id = fresh.history i.id;
          plugin_id = i.plugin_id;
          tag = i.tag;
          operation = operation;
          old_commit_sha = some i.expected_old_commit_sha;
          new_commit_sha = new_commit;
          intent_id = some i.id;
          correlation_id = batch.correlation_id;
          created_at = now;
        })
    complete_transitions fresh i.operation ts now
    update_intent i.id ReceiveState.completed now

  -- The loop of `abortIntent` over the transitions.
  unfoldable pub abort_transitions :
      Fresh → List RevisionProjectionTransition → ℕ → Tx (Tables e) (Unit {0})
  abort_transitions fresh [] now = pure tt
  abort_transitions fresh (t ∷ ts) now = do
    update_pointer t (λ p. record p { available = true; updated_at = now })
    enqueue_some fresh t.staged_artifact_id now
    update_transition t.id TransitionState.aborted now
    abort_transitions fresh ts now

  -- `abortIntent`
  unfoldable pub abort_intent :
      Fresh → ReceiveIntent → List RevisionProjectionTransition → ℕ → Tx (Tables e) (Unit {0})
  abort_intent fresh i ts now = do
    abort_transitions fresh ts now
    update_intent i.id ReceiveState.aborted now

  unfoldable pub settle_intent :
      Fresh
      → ReceiveDisposition
      → ReceiveBatch
      → ReceiveIntent
      → List RevisionProjectionTransition
      → ℕ
      → Tx (Tables e) (Unit {0})
  settle_intent fresh ReceiveDisposition.completed batch i ts now =
      complete_intent fresh batch i ts now
  settle_intent fresh ReceiveDisposition.aborted batch i ts now = abort_intent fresh i ts now
  settle_intent fresh ReceiveDisposition.manual_required batch i ts now = raise manual_required

  -- The loop of `applyResolution`; the transitions of an intent are those with its identifier.
  unfoldable pub settle_intents :
      Fresh
      → ReceiveDisposition
      → ReceiveBatch
      → List ReceiveIntent
      → List RevisionProjectionTransition
      → ℕ
      → Tx (Tables e) (Unit {0})
  settle_intents fresh disposition batch [] ts now = pure tt
  settle_intents fresh disposition batch (i ∷ intents) ts now = do
    settle_intent fresh disposition batch i (filter (λ t. t.intent_id == i.id) ts) now
    settle_intents fresh disposition batch intents ts now

  unfoldable pub settle_batch :
      Bool
      → Fresh
      → ReceiveDisposition
      → ReceiveBatch
      → String
      → List ReceiveIntent
      → List RevisionProjectionTransition
      → ℕ
      → Tx (Tables e) (Unit {0})
  settle_batch true fresh disposition batch id intents ts now = pure tt
  settle_batch false fresh disposition batch id intents ts now = do
    settle_intents fresh disposition batch intents ts now
    update_exact (receive_batches e) (λ b. b.id == id && is_pending b.state)
        (λ b. record b {
          state = final_state disposition;
          updated_at = now;
          completed_at = some now;
        })

  unfoldable pub apply_resolution_body :
      Fresh
      → ReceiveDisposition
      → String
      → List ReceiveIntent
      → List RevisionProjectionTransition
      → ℕ
      → Tx (Tables e) (Unit {0})
  apply_resolution_body fresh disposition id intents ts now = do
    found ← select (receive_batches e) (λ b. b.id == id)
    batch ← first_or (database "record not found") found
    settle_batch (is_terminal_batch_state batch.state) fresh disposition batch id intents ts now

  -- `applyResolution`, of the batch with the given identifier, its intents and their transitions.
  unfoldable pub apply_resolution :
      Fresh
      → ReceiveDisposition
      → String
      → List ReceiveIntent
      → List RevisionProjectionTransition
      → ℕ
      → Tables e
      → Check × Tables e
  unfolding apply_resolution_body
  apply_resolution fresh disposition id intents ts now =
      transaction (apply_resolution_body fresh disposition id intents ts now)
