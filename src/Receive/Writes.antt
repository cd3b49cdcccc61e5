-- ===== src/Receive/Writes.antt =====
-- mod/backend/domain/plugin/receive/coordinator.go: the guarded writes of the transactions on a
-- batch. `now` is what the coordinator's clock answers.
use marketplace_server.Database.Tx.{◌>>=◌, pure, raise, Tx, raise_if}
use marketplace_server.Database.Error.{manual_required}
use marketplace_server.Base.{
  Option, String, Bool, ok, some, ℕ, err, if◌then◌else◌, not, true, ◌||◌, false, is_some, ◌==◌, eqb,
  ◌&&◌,
}
use marketplace_server.Plugins.Model.{
  ArtifactState, ReceiveOperation, ReceiveState, TransitionState, VersionStatus,
  RevisionProjectionTransition, available, RevisionProjectionPointer, deleted, is_prepared,
  is_finalizing, is_manual_required, staged, ProjectionGcState,
}
use marketplace_server.Sql.{Engine}
use marketplace_server.Database.Tables.{Slot, Tables}
use mathlib.Core.Option.{none}
use marketplace_server.Plugins.Store.{is_tag}
use marketplace_server.Database.Statement.{insert_ignore, update}
use marketplace_server.Plugins.Slots.{
  pointers, projection_artifacts, receive_intents, transitions, gc_jobs,
}

-- What `uuid.NewString()` answers for the history of an intent, the job of an artifact, and the
-- artifact and the transition of an intent and a revision.
pub record Fresh : Type 0 where
  pub history : String → String
  pub job : String → String
  pub artifact : String → String → String
  pub transition : String → String → String

abbrev pub version_status_spelling : VersionStatus → String
version_status_spelling available = "available"
version_status_spelling deleted = "deleted"
version_status_spelling (VersionStatus.unlisted s) = s

abbrev pub is_move : ReceiveOperation → Bool
is_move ReceiveOperation.move = true
is_move _ = false

-- A batch or an intent that is not settled yet, nor left to be settled by hand.
abbrev pub is_pending : ReceiveState → Bool
is_pending s = is_prepared s || is_finalizing s

-- A batch or an intent that was completed or aborted.
abbrev pub is_settled : ReceiveState → Bool
is_settled ReceiveState.completed = true
is_settled ReceiveState.aborted = true
is_settled _ = false

-- `isTerminalBatchState`
abbrev pub is_terminal_batch_state : ReceiveState → Bool
is_terminal_batch_state s = is_settled s || is_manual_required s

abbrev pub is_open_transition : TransitionState → Bool
is_open_transition TransitionState.prepared = true
is_open_transition TransitionState.pending = true
is_open_transition _ = false

abbrev pub is_settled_transition : TransitionState → Bool
is_settled_transition TransitionState.completed = true
is_settled_transition TransitionState.aborted = true
is_settled_transition _ = false

abbrev pub is_staged : ArtifactState → Bool
is_staged staged = true
is_staged _ = false

-- `whereNullableID`
abbrev pub is_nullable_id : Option String → Option String → Bool
is_nullable_id none stored = not (is_some stored)
is_nullable_id (some id) stored = is_tag stored id

unfoldable pub or_manual : {S A : Type 0} → Tx S A → Tx S A
or_manual m s = elim (m s) [ ok x ↦ ok x | err x ↦ err manual_required ]

unfoldable pub required : {S A : Type 0} → Option A → Tx S A
required none = raise manual_required
required (some a) = pure a

-- The old artifact of a transition, when it is not the new one.
abbrev pub replaced : Option String → Option String → Option String
replaced none new = none
replaced (some old) new = if is_tag new old then none else some old

module _ {e : Engine} where
  -- An update that must succeed and match exactly one row.
  unfoldable pub update_exact :
      {A : Type 0} → Slot e A → (A → Bool) → (A → A) → Tx (Tables e) (Unit {0})
  update_exact slot p f = do
    n ← or_manual (update slot p f)
    raise_if (not (eqb n 1)) manual_required

  -- `updateIntent`
  unfoldable pub update_intent : String → ReceiveState → ℕ → Tx (Tables e) (Unit {0})
  update_intent id state now =
      update_exact (receive_intents e) (λ i. i.id == id && is_pending i.state)
        (λ i. record i { state = state; updated_at = now; completed_at = some now })

  -- `updateTransition`
  unfoldable pub update_transition : String → TransitionState → ℕ → Tx (Tables e) (Unit {0})
  update_transition id state now =
      update_exact (transitions e) (λ t. t.id == id && is_open_transition t.state)
        (λ t. record t { state = state; updated_at = now; completed_at = some now })

  -- `enqueueGC`, with ON CONFLICT (artifact_id) DO NOTHING.
  unfoldable pub enqueue_gc : Fresh → String → ℕ → Tx (Tables e) (Unit {0})
  enqueue_gc fresh artifact_id now =
      insert_ignore (gc_jobs e) (λ j. j.artifact_id == artifact_id)
        (record {
          id = fresh.job artifact_id;
          artifact_id = artifact_id;
          state = ProjectionGcState.pending;
          attempts = 0;
          safe_error = "";
          next_attempt_at = none;
          created_at = now;
          updated_at = now;
          completed_at = none;
        })

  unfoldable pub enqueue_some : Fresh → Option String → ℕ → Tx (Tables e) (Unit {0})
  enqueue_some fresh none now = pure tt
  enqueue_some fresh (some id) now = enqueue_gc fresh id now

  -- The pointer of a transition, as it was when the batch was prepared.
  unfoldable pub update_pointer :
      RevisionProjectionTransition
      → (RevisionProjectionPointer → RevisionProjectionPointer)
      → Tx (Tables e) (Unit {0})
  update_pointer t change =
      update_exact (pointers e)
        (λ p.
          p.id == t.pointer_id
          && eqb p.generation t.expected_generation
          && not p.available
          && is_nullable_id t.current_artifact_id p.artifact_id)
        change

  unfoldable pub make_ready : String → ℕ → Tx (Tables e) (Unit {0})
  make_ready artifact_id now =
      update_exact (projection_artifacts e) (λ a. a.id == artifact_id && is_staged a.state)
        (λ a. record a { state = ArtifactState.ready; ready_at = some now; updated_at = now })
