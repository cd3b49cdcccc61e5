-- ===== src/Receive/Kept.antt =====
-- mod/backend/domain/plugin/receive/coordinator.go: the writes that settling a batch makes, and that a
-- property of the rows which these writes keep is kept by the transactions.
use marketplace_server.Plugins.Kept.{TxKeeps, tx_seq-keeps, raise_if-keeps, tx_pure-keeps}
use marketplace_server.Base.{
  [], ◌∷◌, ◌++◌, Bool, ◌&&◌, Option, String, not, ◌≡◌, List, some, true, ℕ, arith, false, none,
  subst, sym, ◌==◌,
}
use marketplace_server.Database.Tables.{Rows, Slot, Tables, view}
use marketplace_server.Sql.{Engine, map_where}
use marketplace_server.Plugins.Model.{
  PluginVersion, ReceiveBatch, ReceiveState, TransitionState, RevisionProjectionTransition, Plugin,
  ReceiveIntent, ReceiveOperation, RevisionProjectionPointer, ProjectionArtifact, ProjectionGcJob,
  PluginVersionHistory,
}
use marketplace_server.Receive.Writes.{
  enqueue_some, or_manual, required, update_exact, update_intent, update_pointer, update_transition,
  Fresh, enqueue_gc, is_open_transition, is_pending, make_ready, is_settled, is_settled_transition,
}
use marketplace_server.Receive.Resolve.{
  abort_intent, abort_transitions, change_version, complete_intent, complete_transitions, point_on,
  move_version, delete_version,
}
use marketplace_server.Database.Tx.{Tx, raise_if}
use marketplace_server.Plugins.Slots.{
  plugin_versions, pointers, projection_artifacts, receive_intents, transitions,
  plugin_version_history, plugins, gc_jobs,
}
use marketplace_server.Database.Statement.{
  update, insert, insert_ignore_lem, insert_lem, update_lem,
}
use mathlib.Core.Option.{none}

-- The writes of every transaction that settles a batch or leaves it to be settled by hand: a settled
-- batch, intent or transition is never matched.
pub record Bookkeeping (P : Rows → Type 0) : Type 0 where
  pub batch_updated :
      (v : Rows) (matches : ReceiveBatch → Bool) (change : ReceiveBatch → ReceiveBatch)
      → ((b : ReceiveBatch) → matches b ≡ true → is_settled b.state ≡ false)
      → P v
      → P (record v { receive_batches = map_where matches change v.receive_batches })
  pub intent_updated :
      (v : Rows) (matches : ReceiveIntent → Bool) (change : ReceiveIntent → ReceiveIntent)
      → ((i : ReceiveIntent) → matches i ≡ true → is_settled i.state ≡ false)
      → P v
      → P (record v { receive_intents = map_where matches change v.receive_intents })
  pub transition_updated :
      (v : Rows) (matches : RevisionProjectionTransition → Bool)
      (change : RevisionProjectionTransition → RevisionProjectionTransition)
      → ((t : RevisionProjectionTransition)
          → matches t ≡ true
          → is_settled_transition t.state ≡ false)
      → P v
      → P (record v { transitions = map_where matches change v.transitions })
  pub pointer_updated :
      (v : Rows) (matches : RevisionProjectionPointer → Bool)
      (change : RevisionProjectionPointer → RevisionProjectionPointer)
      → P v
      → P (record v { pointers = map_where matches change v.pointers })
  pub job_added : (v : Rows) (jobs : List ProjectionGcJob) → P v → P (record v { gc_jobs = jobs })

-- What completing a batch writes besides.
pub record Completion (P : Rows → Type 0) : Type 0 where
  pub bookkeeping : Bookkeeping P
  pub version_updated :
      (v : Rows) (matches : PluginVersion → Bool) (change : PluginVersion → PluginVersion)
      → P v
      → P (record v { plugin_versions = map_where matches change v.plugin_versions })
  pub default_cleared :
      (v : Rows) (matches : Plugin → Bool) (now : ℕ)
      → P v
      → P (record v {
        plugins =
            map_where matches
              (λ p. record p { default_version_tag = none; updated_at = now })
              v.plugins;
      })
  pub artifact_updated :
      (v : Rows) (matches : ProjectionArtifact → Bool)
      (change : ProjectionArtifact → ProjectionArtifact)
      → P v
      → P (record v { projection_artifacts = map_where matches change v.projection_artifacts })
  pub history_added :
      (v : Rows) (h : PluginVersionHistory)
      → P v
      → P (record v { plugin_version_history = v.plugin_version_history ++ h ∷ [] })

pub pending-not_settled :
    (b : Bool) (s : ReceiveState) → (b && is_pending s) ≡ true → is_settled s ≡ false
pending-not_settled b s h = ground arith

open-not_settled :
    (b : Bool) (s : TransitionState)
    → (b && is_open_transition s) ≡ true
    → is_settled_transition s ≡ false
open-not_settled b s h = ground arith

pub unsettled_only : (b c : Bool) → (b && not c) ≡ true → c ≡ false
unsettled_only b c h = ground arith

module _ {e : Engine} (P : Rows → Type 0) where
  or_manual-keeps : {A : Type 0} (m : Tx (Tables e) A) → TxKeeps P m → TxKeeps P (or_manual m)
  unfolding or_manual
  or_manual-keeps m k s s' a r p = k s s' a (ground arith) p

  required-keeps : {A : Type 0} (o : Option A) → TxKeeps {e = e} P (required o)
  unfolding required
  required-keeps none s s' a r p = absurd (cc r)
  required-keeps (some b) s s' a r p = tx_pure-keeps P b s s' a r p

  pub update_exact-keeps :
      {A : Type 0} (slot : Slot e A) (q : A → Bool) (f : A → A)
      → ((v : Rows) → P v → P (slot.set v (map_where q f (slot.rows v))))
      → TxKeeps P (update_exact slot q f)
  unfolding update_exact
  update_exact-keeps slot q f k =
      tx_seq-keeps P (or_manual (update slot q f)) _
        (or_manual-keeps (update slot q f)
          (λ s s' n r p. subst P (sym (update_lem slot q f s s' n r).0) (k (view e s) p)))
        (λ n. raise_if-keeps P _ _)

module _ {e : Engine} {P : Rows → Type 0} (inv : Bookkeeping P) where
  update_intent-keeps :
      (id : String) (state : ReceiveState) (now : ℕ)
      → TxKeeps {e = e} P (update_intent id state now)
  unfolding update_intent
  update_intent-keeps id state now =
      update_exact-keeps P (receive_intents e) (λ i. i.id == id && is_pending i.state)
        (λ i. record i { state = state; updated_at = now; completed_at = some now })
        (λ v p. inv.intent_updated v _ _ (λ i m. pending-not_settled (i.id == id) i.state m) p)

  update_transition-keeps :
      (id : String) (state : TransitionState) (now : ℕ)
      → TxKeeps {e = e} P (update_transition id state now)
  unfolding update_transition
  update_transition-keeps id state now =
      update_exact-keeps P (transitions e) (λ t. t.id == id && is_open_transition t.state)
        (λ t. record t { state = state; updated_at = now; completed_at = some now })
        (λ v p. inv.transition_updated v _ _ (λ t m. open-not_settled (t.id == id) t.state m) p)

  enqueue_some-keeps :
      (fresh : Fresh) (id : Option String) (now : ℕ) → TxKeeps {e = e} P (enqueue_some fresh id now)
  unfolding enqueue_some enqueue_gc
  enqueue_some-keeps fresh none now = tx_pure-keeps P tt
  enqueue_some-keeps fresh (some id) now =
      λ s s' u r p. subst P (sym (insert_ignore_lem (gc_jobs e) _ _ s s' r)) (inv.job_added _ _ p)

  write_pointer-keeps :
      (q : RevisionProjectionPointer → Bool)
      (f : RevisionProjectionPointer → RevisionProjectionPointer)
      → TxKeeps {e = e} P (update_exact (pointers e) q f)
  write_pointer-keeps q f =
      update_exact-keeps P (pointers e) q f (λ v p. inv.pointer_updated v q f p)

  update_pointer-keeps :
      (t : RevisionProjectionTransition)
      (change : RevisionProjectionPointer → RevisionProjectionPointer)
      → TxKeeps {e = e} P (update_pointer t change)
  unfolding update_pointer
  update_pointer-keeps t change = write_pointer-keeps _ change

  abort_transitions-keeps :
      (fresh : Fresh) (ts : List RevisionProjectionTransition) (now : ℕ)
      → TxKeeps {e = e} P (abort_transitions fresh ts now)
  unfolding abort_transitions
  abort_transitions-keeps fresh [] now = tx_pure-keeps P tt
  abort_transitions-keeps fresh (t ∷ ts) now =
      tx_seq-keeps P (update_pointer t _) _ (update_pointer-keeps t _) (λ _.
        tx_seq-keeps P (enqueue_some fresh t.staged_artifact_id now) _
          (enqueue_some-keeps fresh t.staged_artifact_id now)
          (λ _.
            tx_seq-keeps P (update_transition t.id TransitionState.aborted now) _
              (update_transition-keeps t.id TransitionState.aborted now)
              (λ _. abort_transitions-keeps fresh ts now)))

  pub abort_intent-keeps :
      (fresh : Fresh) (i : ReceiveIntent) (ts : List RevisionProjectionTransition) (now : ℕ)
      → TxKeeps {e = e} P (abort_intent fresh i ts now)
  unfolding abort_intent
  abort_intent-keeps fresh i ts now =
      tx_seq-keeps P (abort_transitions fresh ts now) _ (abort_transitions-keeps fresh ts now)
        (λ _. update_intent-keeps i.id ReceiveState.aborted now)

module _ {e : Engine} {P : Rows → Type 0} (inv : Completion P) where
  write_artifact-keeps :
      (q : ProjectionArtifact → Bool) (f : ProjectionArtifact → ProjectionArtifact)
      → TxKeeps {e = e} P (update_exact (projection_artifacts e) q f)
  write_artifact-keeps q f =
      update_exact-keeps P (projection_artifacts e) q f (λ v p. inv.artifact_updated v q f p)

  point_on-keeps :
      (operation : ReceiveOperation) (t : RevisionProjectionTransition) (now : ℕ)
      → TxKeeps {e = e} P (point_on operation t now)
  unfolding point_on make_ready
  point_on-keeps ReceiveOperation.move t now =
      tx_seq-keeps P (required t.staged_artifact_id) _ (required-keeps P t.staged_artifact_id) (λ a.
        tx_seq-keeps P (make_ready a now) _ (write_artifact-keeps _ _)
          (λ _. update_pointer-keeps inv.bookkeeping t _))
  point_on-keeps ReceiveOperation.delete t now = update_pointer-keeps inv.bookkeeping t _
  point_on-keeps (ReceiveOperation.unlisted x) t now = λ s s' u r p. absurd (cc r)

  complete_transitions-keeps :
      (fresh : Fresh) (operation : ReceiveOperation) (ts : List RevisionProjectionTransition)
      (now : ℕ)
      → TxKeeps {e = e} P (complete_transitions fresh operation ts now)
  unfolding complete_transitions
  complete_transitions-keeps fresh operation [] now = tx_pure-keeps P tt
  complete_transitions-keeps fresh operation (t ∷ ts) now =
      tx_seq-keeps P (point_on operation t now) _ (point_on-keeps operation t now) (λ _.
        tx_seq-keeps P (enqueue_some fresh _ now) _ (enqueue_some-keeps inv.bookkeeping fresh _ now)
          (λ _.
            tx_seq-keeps P (update_transition t.id TransitionState.completed now) _
              (update_transition-keeps inv.bookkeeping t.id TransitionState.completed now)
              (λ _. complete_transitions-keeps fresh operation ts now)))

  update_version-keeps :
      (q : PluginVersion → Bool) (f : PluginVersion → PluginVersion)
      → TxKeeps {e = e} P (update_exact (plugin_versions e) q f)
  update_version-keeps q f =
      update_exact-keeps P (plugin_versions e) q f (λ v p. inv.version_updated v q f p)

  change_version-keeps :
      (operation : ReceiveOperation) (i : ReceiveIntent) (now : ℕ)
      → TxKeeps {e = e} P (change_version operation i now)
  unfolding change_version move_version delete_version
  change_version-keeps ReceiveOperation.move i now =
      tx_seq-keeps P (required i.proposed_new_object_id) _
        (required-keeps P i.proposed_new_object_id)
        (λ o.
          tx_seq-keeps P (required i.proposed_new_commit_sha) _
            (required-keeps P i.proposed_new_commit_sha)
            (λ c.
              tx_seq-keeps P (required i.proposed_manifest_digest) _
                (required-keeps P i.proposed_manifest_digest)
                (λ d. tx_seq-keeps P (raise_if _ _) _ (raise_if-keeps P _ _) (λ _.
                  tx_seq-keeps P (update_exact (plugin_versions e) _ _) _ (update_version-keeps _ _)
                    (λ _. tx_pure-keeps P _)))))
  change_version-keeps ReceiveOperation.delete i now =
      tx_seq-keeps P (update_exact (plugin_versions e) _ _) _ (update_version-keeps _ _) (λ _.
        tx_seq-keeps P (update (plugins e) _ _) _
          (λ s s' n r p.
            subst P (sym (update_lem (plugins e) _ _ s s' n r).0) (inv.default_cleared _ _ now p))
          (λ _. tx_pure-keeps P _))
  change_version-keeps (ReceiveOperation.unlisted x) i now = λ s s' u r p. absurd (cc r)

  pub complete_intent-keeps :
      (fresh : Fresh) (batch : ReceiveBatch) (i : ReceiveIntent)
      (ts : List RevisionProjectionTransition) (now : ℕ)
      → TxKeeps {e = e} P (complete_intent fresh batch i ts now)
  unfolding complete_intent
  complete_intent-keeps fresh batch i ts now =
      tx_seq-keeps P (change_version i.operation i now) _ (change_version-keeps i.operation i now)
        (λ done.
          tx_seq-keeps P (insert (plugin_version_history e) _ _) _
            (λ s s' u r p.
              subst P (sym (insert_lem (plugin_version_history e) _ _ s s' r).1)
                (inv.history_added _ _ p))
            (λ _.
              tx_seq-keeps P (complete_transitions fresh i.operation ts now) _
                (complete_transitions-keeps fresh i.operation ts now)
                (λ _. update_intent-keeps inv.bookkeeping i.id ReceiveState.completed now)))
