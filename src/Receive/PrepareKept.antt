-- ===== src/Receive/PrepareKept.antt =====
-- mod/backend/domain/plugin/receive/coordinator.go: the writes that preparing a batch makes, and that a
-- property of the rows which these writes keep is kept by the transaction.
use marketplace_server.Plugins.Kept.{TxKeeps, tx_seq-keeps, tx_pure-keeps}
use marketplace_server.Database.Tables.{Rows, Slot, Tables, view}
use marketplace_server.Base.{
  [], ◌∷◌, ◌++◌, Bool, List, String, ℕ, Option, some, none, subst, sym, ◌≡◌, false, refl,
}
use marketplace_server.Receive.Kept.{update_exact-keeps, Completion}
use marketplace_server.Receive.Prepare.{
  persist_prepared, persist_prepared_body, prepare_plans, prepare_revisions, stage_artifact,
  withhold_pointer, ReceivePlan, PluginProjectionResult, RevisionPlan, fail_artifact,
}
use marketplace_server.Plugins.Model.{
  ReceiveBatch, ReceiveIntent, RevisionProjectionPointer, ProjectionArtifact,
  RevisionProjectionTransition,
}
use marketplace_server.Sql.{Engine, map_where}
use marketplace_server.Database.Statement.{insert, insert_lem, update, update_lem}
use marketplace_server.Receive.Writes.{Fresh, update_exact}
use marketplace_server.Plugins.Slots.{
  pointers, receive_intents, projection_artifacts, receive_batches, transitions,
}
use marketplace_server.Database.Tx.{transaction_keeps}

-- The new rows are a prepared batch, prepared intents, staged artifacts and pending transitions.
pub record Preparation (P : Rows → Type 0) : Type 0 where
  pub batch_added :
      (v : Rows) (b : ReceiveBatch)
      → P v
      → P (record v { receive_batches = v.receive_batches ++ b ∷ [] })
  pub intent_added :
      (v : Rows) (i : ReceiveIntent)
      → P v
      → P (record v { receive_intents = v.receive_intents ++ i ∷ [] })
  pub artifact_added :
      (v : Rows) (a : ProjectionArtifact)
      → P v
      → P (record v { projection_artifacts = v.projection_artifacts ++ a ∷ [] })
  pub transition_added :
      (v : Rows) (t : RevisionProjectionTransition)
      → P v
      → P (record v { transitions = v.transitions ++ t ∷ [] })
  pub pointer_withheld :
      (v : Rows) (matches : RevisionProjectionPointer → Bool)
      (change : RevisionProjectionPointer → RevisionProjectionPointer)
      → ((p : RevisionProjectionPointer) → (change p).id ≡ p.id)
      → ((p : RevisionProjectionPointer) → (change p).available ≡ false)
      → P v
      → P (record v { pointers = map_where matches change v.pointers })

module _ {e : Engine} (P : Rows → Type 0) where
  insert-keeps :
      {A : Type 0} (slot : Slot e A) (clash : A → Bool) (a : A)
      → ((v : Rows) → P v → P (slot.set v (slot.rows v ++ a ∷ [])))
      → TxKeeps P (insert slot clash a)
  insert-keeps slot clash a k s s' u r p =
      subst P (sym (insert_lem slot clash a s s' r).1) (k (view e s) p)

module _ {e : Engine} {P : Rows → Type 0} (inv : Preparation P) where
  stage_artifact-keeps :
      (fresh : Fresh) (plugin_id : String) (plan : ReceivePlan) (revision_id : String)
      (result : Option PluginProjectionResult) (now : ℕ)
      → TxKeeps {e = e} P (stage_artifact fresh plugin_id plan revision_id result now)
  unfolding stage_artifact
  stage_artifact-keeps fresh plugin_id plan revision_id none now = tx_pure-keeps P none
  stage_artifact-keeps fresh plugin_id plan revision_id (some result) now =
      tx_seq-keeps P (insert (projection_artifacts e) _ _) _
        (insert-keeps P (projection_artifacts e) _ _ (λ v p. inv.artifact_added v _ p))
        (λ _. tx_pure-keeps P _)

  withhold-keeps :
      (q : RevisionProjectionPointer → Bool)
      (f : RevisionProjectionPointer → RevisionProjectionPointer)
      → ((p : RevisionProjectionPointer) → (f p).id ≡ p.id)
      → ((p : RevisionProjectionPointer) → (f p).available ≡ false)
      → TxKeeps {e = e} P (update_exact (pointers e) q f)
  withhold-keeps q f same closed =
      update_exact-keeps P (pointers e) q f (λ v p. inv.pointer_withheld v q f same closed p)

  withhold_pointer-keeps :
      (pointer : RevisionProjectionPointer) (now : ℕ)
      → TxKeeps {e = e} P (withhold_pointer pointer now)
  unfolding withhold_pointer
  withhold_pointer-keeps pointer now = withhold-keeps _ _ (λ p. refl) (λ p. refl)

  pub prepare_revisions-keeps :
      (fresh : Fresh) (plugin_id : String) (plan : ReceivePlan) (revisions : List RevisionPlan)
      (now : ℕ)
      → TxKeeps {e = e} P (prepare_revisions fresh plugin_id plan revisions now)
  unfolding prepare_revisions
  prepare_revisions-keeps fresh plugin_id plan [] now = tx_pure-keeps P tt
  prepare_revisions-keeps fresh plugin_id plan (r ∷ revisions) now =
      tx_seq-keeps P (stage_artifact fresh plugin_id plan r.revision_id _ now) _
        (stage_artifact-keeps fresh plugin_id plan r.revision_id _ now)
        (λ a.
          tx_seq-keeps P (insert (transitions e) _ _) _
            (insert-keeps P (transitions e) _ _ (λ v p. inv.transition_added v _ p))
            (λ _.
              tx_seq-keeps P (withhold_pointer r.pointer now) _
                (withhold_pointer-keeps r.pointer now)
                (λ _. prepare_revisions-keeps fresh plugin_id plan revisions now)))

  pub prepare_plans-keeps :
      (fresh : Fresh) (batch_id plugin_id : String) (plans : List ReceivePlan) (now : ℕ)
      → TxKeeps {e = e} P (prepare_plans fresh batch_id plugin_id plans now)
  unfolding prepare_plans
  prepare_plans-keeps fresh batch_id plugin_id [] now = tx_pure-keeps P tt
  prepare_plans-keeps fresh batch_id plugin_id (plan ∷ plans) now =
      tx_seq-keeps P (insert (receive_intents e) _ _) _
        (insert-keeps P (receive_intents e) _ _ (λ v p. inv.intent_added v _ p))
        (λ _.
          tx_seq-keeps P (prepare_revisions fresh plugin_id plan plan.revisions now) _
            (prepare_revisions-keeps fresh plugin_id plan plan.revisions now)
            (λ _. prepare_plans-keeps fresh batch_id plugin_id plans now))

  pub persist_prepared-keeps :
      (fresh : Fresh) (batch_id plugin_id session_id : String) (plans : List ReceivePlan) (now : ℕ)
      (s : Tables e)
      → P (view e s)
      → P (view e (persist_prepared fresh batch_id plugin_id session_id plans now s).1)
  unfolding persist_prepared persist_prepared_body
  persist_prepared-keeps fresh batch_id plugin_id session_id plans now s p =
      transaction_keeps (λ t. P (view e t)) _ s
        (λ s' r.
          tx_seq-keeps P (insert (receive_batches e) _ _) _
            (insert-keeps P (receive_batches e) _ _ (λ v p. inv.batch_added v _ p))
            (λ _. prepare_plans-keeps fresh batch_id plugin_id plans now) s s' tt r p)
        p

module _ {e : Engine} {P : Rows → Type 0} (inv : Completion P) where
  fail_artifacts-keeps :
      (q : ProjectionArtifact → Bool) (f : ProjectionArtifact → ProjectionArtifact)
      → TxKeeps {e = e} P (update (projection_artifacts e) q f)
  fail_artifacts-keeps q f s s' n r p =
      subst P (sym (update_lem (projection_artifacts e) q f s s' n r).0)
        (inv.artifact_updated _ q f p)

  pub fail_artifact-keeps :
      (artifact_id : String) (now : ℕ) (s : Tables e)
      → P (view e s)
      → P (view e (fail_artifact artifact_id now s).1)
  unfolding fail_artifact
  fail_artifact-keeps artifact_id now s p =
      transaction_keeps (λ t. P (view e t)) _ s
        (λ s' r.
          tx_seq-keeps P (update (projection_artifacts e) _ _) _ (fail_artifacts-keeps _ _)
            (λ _. tx_pure-keeps P tt) s s' tt r p)
        p
