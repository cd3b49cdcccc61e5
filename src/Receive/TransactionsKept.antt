-- ===== src/Receive/TransactionsKept.antt =====
-- mod/backend/domain/plugin/receive/coordinator.go: what the transactions that settle a batch keep.
use marketplace_server.Database.Tx
use marketplace_server.Plugins.Kept.{
  TxKeeps, tx_seq-keeps, tx_pure-keeps, select-keeps, first_or-keeps,
}
use marketplace_server.Base.{
  [], ◌∷◌, List, String, Bool, true, ℕ, ◌==◌, false, ◌&&◌, filter, subst, some, sym,
}
use marketplace_server.Sql.{Engine}
use marketplace_server.Git.Resolution.{ReceiveDisposition}
use marketplace_server.Plugins.Model.{
  ReceiveState, ReceiveBatch, ReceiveIntent, RevisionProjectionTransition,
  RevisionProjectionPointer,
}
use marketplace_server.Database.Tables.{Rows, Tables, view}
use marketplace_server.Receive.Kept.{
  Bookkeeping, Completion, abort_intent-keeps, complete_intent-keeps, update_exact-keeps,
  pending-not_settled, unsettled_only,
}
use marketplace_server.Receive.Writes.{
  Fresh, is_settled, update_exact, is_pending, is_terminal_batch_state, is_settled_transition,
}
use marketplace_server.Receive.Resolve.{
  apply_resolution, settle_batch, settle_intents, apply_resolution_body, final_state, settle_intent,
  abort_intent, complete_intent,
}
use marketplace_server.Receive.Manual.{mark_manual, mark_transitions, mark_manual_body}
use marketplace_server.Database.Statement.{update, select, update_lem}
use marketplace_server.Plugins.Slots.{pointers, receive_batches, transitions, receive_intents}
use marketplace_server.Database.Error.{StoreError}
use marketplace_server.Database.Tx.{transaction_keeps}
use marketplace_server.Identity.Store.{first_or}

module _ {e : Engine} {P : Rows → Type 0} (inv : Bookkeeping P) where
  settle_batches-keeps :
      (id : String) (state : ReceiveState) (now : ℕ)
      → TxKeeps {e = e} P (
          update_exact
            (receive_batches e)
            (λ b. b.id == id && is_pending b.state)
            (λ b. record b { state = state; updated_at = now; completed_at = some now }))
  settle_batches-keeps id state now =
      update_exact-keeps P (receive_batches e) (λ b. b.id == id && is_pending b.state)
        (λ b. record b { state = state; updated_at = now; completed_at = some now })
        (λ v p. inv.batch_updated v _ _ (λ b m. pending-not_settled (b.id == id) b.state m) p)

  settle_batch-keeps :
      (terminal : Bool) (fresh : Fresh) (disposition : ReceiveDisposition) (batch : ReceiveBatch)
      (id : String) (intents : List ReceiveIntent) (ts : List RevisionProjectionTransition)
      (now : ℕ)
      → TxKeeps {e = e} P (settle_intents fresh disposition batch intents ts now)
      → TxKeeps {e = e} P (settle_batch terminal fresh disposition batch id intents ts now)
  unfolding settle_batch
  settle_batch-keeps true fresh disposition batch id intents ts now k = tx_pure-keeps P tt
  settle_batch-keeps false fresh disposition batch id intents ts now k =
      tx_seq-keeps P (settle_intents fresh disposition batch intents ts now) _ k
        (λ _. settle_batches-keeps id (final_state disposition) now)

  -- The transaction keeps what the loop over the intents keeps.
  pub resolution-keeps :
      (fresh : Fresh) (disposition : ReceiveDisposition) (id : String)
      (intents : List ReceiveIntent) (ts : List RevisionProjectionTransition) (now : ℕ)
      (s : Tables e)
      → ((batch : ReceiveBatch)
          → TxKeeps {e = e} P (settle_intents fresh disposition batch intents ts now))
      → P (view e s)
      → P (view e (apply_resolution fresh disposition id intents ts now s).1)
  unfolding apply_resolution apply_resolution_body
  resolution-keeps fresh disposition id intents ts now s k p =
      transaction_keeps (λ t. P (view e t)) _ s
        (λ s' r.
          tx_seq-keeps P (select (receive_batches e) _) _ (select-keeps P (receive_batches e) _)
            (λ found. tx_seq-keeps P (first_or _ found) _ (first_or-keeps P _ found) (λ batch.
              settle_batch-keeps (is_terminal_batch_state batch.state) fresh disposition batch id
                intents ts now (k batch)))
            s s' tt r p)
        p

  pub abort_intents-keeps :
      (fresh : Fresh) (batch : ReceiveBatch) (intents : List ReceiveIntent)
      (ts : List RevisionProjectionTransition) (now : ℕ)
      → TxKeeps {e = e} P (settle_intents fresh ReceiveDisposition.aborted batch intents ts now)
  unfolding settle_intents settle_intent
  abort_intents-keeps fresh batch [] ts now = tx_pure-keeps P tt
  abort_intents-keeps fresh batch (i ∷ intents) ts now =
      tx_seq-keeps P (abort_intent fresh i (filter (λ t. t.intent_id == i.id) ts) now) _
        (abort_intent-keeps inv fresh i (filter (λ t. t.intent_id == i.id) ts) now)
        (λ _. abort_intents-keeps fresh batch intents ts now)

  update_pointers-keeps :
      (q : RevisionProjectionPointer → Bool)
      (f : RevisionProjectionPointer → RevisionProjectionPointer)
      → TxKeeps {e = e} P (update (pointers e) q f)
  update_pointers-keeps q f s s' n r p =
      subst P (sym (update_lem (pointers e) q f s s' n r).0) (inv.pointer_updated _ q f p)

  mark_transitions-keeps :
      (ts : List RevisionProjectionTransition) (safe_error : String) (now : ℕ)
      → TxKeeps {e = e} P (mark_transitions ts safe_error now)
  unfolding mark_transitions
  mark_transitions-keeps [] safe_error now = tx_pure-keeps P tt
  mark_transitions-keeps (t ∷ ts) safe_error now =
      tx_seq-keeps P (update (pointers e) _ _) _ (update_pointers-keeps _ _) (λ _.
        tx_seq-keeps P (update (transitions e) _ _) _
          (λ s s' n r p. subst P (sym (update_lem (transitions e) _ _ s s' n r).0) (
            inv.transition_updated _ _ _
              (λ x m. unsettled_only (x.id == t.id) (is_settled_transition x.state) m) p))
          (λ _. mark_transitions-keeps ts safe_error now))

  pub mark_manual-keeps :
      (id : String) (ts : List RevisionProjectionTransition) (safe_error : String) (now : ℕ)
      (s : Tables e)
      → P (view e s)
      → P (view e (mark_manual id ts safe_error now s).1)
  unfolding mark_manual mark_manual_body
  mark_manual-keeps id ts safe_error now s p =
      transaction_keeps (λ t. P (view e t)) _ s
        (λ s' r.
          tx_seq-keeps P (update (receive_batches e) _ _) _
            (λ s s' n r p. subst P (sym (update_lem (receive_batches e) _ _ s s' n r).0) (
              inv.batch_updated _ _ _ (λ b m. unsettled_only (b.id == id) (is_settled b.state) m)
                p))
            (λ _.
              tx_seq-keeps P (update (receive_intents e) _ _) _
                (λ s s' n r p. subst P (sym (update_lem (receive_intents e) _ _ s s' n r).0) (
                  inv.intent_updated _ _ _
                    (λ i m. unsettled_only (i.batch_id == id) (is_settled i.state) m) p))
                (λ _. mark_transitions-keeps ts safe_error now))
            s s' tt r p)
        p

module _ {e : Engine} {P : Rows → Type 0} (inv : Completion P) where
  pub settle_intents-keeps :
      (fresh : Fresh) (disposition : ReceiveDisposition) (batch : ReceiveBatch)
      (intents : List ReceiveIntent) (ts : List RevisionProjectionTransition) (now : ℕ)
      → TxKeeps {e = e} P (settle_intents fresh disposition batch intents ts now)
  unfolding settle_intents settle_intent
  settle_intents-keeps fresh disposition batch [] ts now = tx_pure-keeps P tt
  settle_intents-keeps fresh ReceiveDisposition.completed batch (i ∷ intents) ts now =
      tx_seq-keeps P (complete_intent fresh batch i (filter (λ t. t.intent_id == i.id) ts) now) _
        (complete_intent-keeps inv fresh batch i (filter (λ t. t.intent_id == i.id) ts) now)
        (λ _. settle_intents-keeps fresh ReceiveDisposition.completed batch intents ts now)
  settle_intents-keeps fresh ReceiveDisposition.aborted batch (i ∷ intents) ts now =
      abort_intents-keeps inv.bookkeeping fresh batch (i ∷ intents) ts now
  settle_intents-keeps fresh ReceiveDisposition.manual_required batch (i ∷ intents) ts now =
      tx_seq-keeps P (Tx.raise StoreError.manual_required) _ (λ s s' u r p. absurd (cc r))
        (λ _. settle_intents-keeps fresh ReceiveDisposition.manual_required batch intents ts now)
