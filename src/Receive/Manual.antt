-- ===== src/Receive/Manual.antt =====
-- mod/backend/domain/plugin/receive/coordinator.go: a batch that is left to be settled by hand.
use marketplace_server.Database.Tx.{◌>>=◌, pure, Tx, transaction}
use marketplace_server.Database.Error.{Check}
use marketplace_server.Base.{[], ◌∷◌, List, String, ℕ, ◌==◌, false, ◌&&◌, not}
use marketplace_server.Sql.{Engine}
use marketplace_server.Plugins.Model.{RevisionProjectionTransition, ReceiveState, TransitionState}
use marketplace_server.Database.Tables.{Tables}
use marketplace_server.Database.Statement.{update}
use marketplace_server.Plugins.Slots.{pointers, receive_batches, transitions, receive_intents}
use marketplace_server.Receive.Writes.{is_settled, is_settled_transition}

module _ {e : Engine} where
  unfoldable pub mark_transitions :
      List RevisionProjectionTransition → String → ℕ → Tx (Tables e) (Unit {0})
  mark_transitions [] safe_error now = pure tt
  mark_transitions (t ∷ ts) safe_error now = do
    _ ←
        update (pointers e) (λ p. p.id == t.pointer_id)
          (λ p. record p { available = false; updated_at = now })
    _ ←
        update (transitions e) (λ x. x.id == t.id && not (is_settled_transition x.state))
          (λ x. record x {
            state = TransitionState.manual_required;
            safe_error = safe_error;
            updated_at = now;
          })
    mark_transitions ts safe_error now

  unfoldable pub mark_manual_body :
      String → List RevisionProjectionTransition → String → ℕ → Tx (Tables e) (Unit {0})
  mark_manual_body id ts safe_error now = do
    _ ←
        update (receive_batches e) (λ b. b.id == id && not (is_settled b.state))
          (λ b. record b {
            state = ReceiveState.manual_required;
            safe_error = safe_error;
            updated_at = now;
          })
    _ ←
        update (receive_intents e) (λ i. i.batch_id == id && not (is_settled i.state))
          (λ i. record i {
            state = ReceiveState.manual_required;
            safe_error = safe_error;
            updated_at = now;
          })
    mark_transitions ts safe_error now

  -- `markManual`
  unfoldable pub mark_manual :
      String → List RevisionProjectionTransition → String → ℕ → Tables e → Check × Tables e
  unfolding mark_manual_body
  mark_manual id ts safe_error now = transaction (mark_manual_body id ts safe_error now)
