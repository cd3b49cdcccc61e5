-- ===== src/Receive/Final.antt =====
-- mod/backend/domain/plugin/receive/coordinator.go: what the writes of the coordinator never undo.
use marketplace_server.Base.{
  [], ◌∷◌, ◌++◌, refl, arith, ◌∙◌, List, String, Bool, any, ◌≡◌, ap, true, ◌==◌, false, ℕ, ◌&&◌,
}
use marketplace_server.Git.Resolution.{ReceiveDisposition}
use marketplace_server.Sql.{Engine, any-map_where, All-true, unmatched, any-append}
use marketplace_server.Plugins.Model.{
  ReceiveState, PluginVersionHistory, ReceiveBatch, ReceiveIntent, RevisionProjectionTransition,
}
use marketplace_server.Database.Tables.{Rows, Tables, view}
use marketplace_server.Receive.Writes.{Fresh, is_settled}
use marketplace_server.Receive.Kept.{Completion}
use marketplace_server.Database.Error.{Check}
use marketplace_server.Receive.Resolve.{apply_resolution}
use marketplace_server.Receive.TransactionsKept.{
  resolution-keeps, settle_intents-keeps, mark_manual-keeps,
}
use marketplace_server.Receive.Manual.{mark_manual}
use marketplace_server.Receive.Prepare.{ReceivePlan, persist_prepared, fail_artifact}
use marketplace_server.Receive.PrepareKept.{
  Preparation, persist_prepared-keeps, fail_artifact-keeps,
}

-- What the coordinator writes: the transactions of `persistPrepared`, `applyResolution` and `markManual`,
-- and the artifact whose verification failed.
pub data CoordinatorWrite : Type 0 where
  preparation : String → String → List ReceivePlan → CoordinatorWrite
  resolution : ReceiveDisposition → List ReceiveIntent → CoordinatorWrite
  manual : String → CoordinatorWrite
  failed_artifact : String → CoordinatorWrite

module _ {e : Engine} where
  abbrev pub commit :
      Fresh
      → String
      → List RevisionProjectionTransition
      → ℕ
      → CoordinatorWrite
      → Tables e
      → Check × Tables e
  commit fresh id ts now (preparation plugin_id session_id plans) =
      persist_prepared fresh id plugin_id session_id plans now
  commit fresh id ts now (resolution disposition intents) =
      apply_resolution fresh disposition id intents ts now
  commit fresh id ts now (manual safe_error) = mark_manual id ts safe_error now
  commit fresh id ts now (failed_artifact artifact_id) = fail_artifact artifact_id now

  -- What preparing and what completing a batch keep, every write of the coordinator keeps.
  pub commit-keeps :
      {P : Rows → Type 0}
      → Preparation P
      → Completion P
      → (fresh : Fresh) (id : String) (ts : List RevisionProjectionTransition) (now : ℕ)
        (write : CoordinatorWrite) (s : Tables e)
      → P (view e s)
      → P (view e (commit fresh id ts now write s).1)
  commit-keeps added inv fresh id ts now (preparation plugin_id session_id plans) s p =
      persist_prepared-keeps added fresh id plugin_id session_id plans now s p
  commit-keeps added inv fresh id ts now (resolution disposition intents) s p =
      resolution-keeps inv.bookkeeping fresh disposition id intents ts now s
        (λ batch. settle_intents-keeps inv fresh disposition batch intents ts now) p
  commit-keeps added inv fresh id ts now (manual safe_error) s p =
      mark_manual-keeps inv.bookkeeping id ts safe_error now s p
  commit-keeps added inv fresh id ts now (failed_artifact artifact_id) s p =
      fail_artifact-keeps inv artifact_id now s p

-- A batch with the identifier that was completed, or that was aborted.
abbrev pub same_outcome : ReceiveState → ReceiveState → Bool
same_outcome ReceiveState.completed ReceiveState.completed = true
same_outcome ReceiveState.aborted ReceiveState.aborted = true
same_outcome _ _ = false

abbrev pub ended : String → ReceiveState → ReceiveBatch → Bool
ended id state b = b.id == id && same_outcome state b.state

abbrev pub IsEnded : String → ReceiveState → Rows → Type 0
IsEnded id state v = any (ended id state) v.receive_batches ≡ true

-- What is only added to.
abbrev pub IsHistorySince : List PluginVersionHistory → Rows → Type 0
IsHistorySince past v =
    (later : List PluginVersionHistory) × (v.plugin_version_history ≡ past ++ later)

-- The versions, the plugins, the history and the artifacts are the given ones.
abbrev pub IsCatalogue : Rows → Rows → Type 0
IsCatalogue u v =
    (v.plugin_versions ≡ u.plugin_versions)
    × (v.plugins ≡ u.plugins)
    × (v.plugin_version_history ≡ u.plugin_version_history)
    × (v.projection_artifacts ≡ u.projection_artifacts)

outcome-is_settled : (state s : ReceiveState) → same_outcome state s ≡ true → is_settled s ≡ true
outcome-is_settled state s h = ground arith

ended-unmatched :
    (id : String) (state : ReceiveState) (b : ReceiveBatch) (m : Bool)
    → (m ≡ true → is_settled b.state ≡ false)
    → ended id state b ≡ true
    → m ≡ false
ended-unmatched id state b false d h = refl
ended-unmatched id state b true d h =
    absurd (ground (arith, d refl, outcome-is_settled state b.state))

pub IsEnded-Completion : (id : String) (state : ReceiveState) → Completion (IsEnded id state)
IsEnded-Completion id state = record {
  bookkeeping = record {
    batch_updated = λ v matches change open_only h.
        any-map_where (ended id state) matches change v.receive_batches
          (All-true _ v.receive_batches (λ b r.
            unmatched (ended id state) matches change b
              (ended-unmatched id state b (matches b) (open_only b) r) r))
          h;
    intent_updated = λ v matches change open_only h. h;
    transition_updated = λ v matches change open_only h. h;
    pointer_updated = λ v matches change h. h;
    job_added = λ v jobs h. h;
  };
  version_updated = λ v matches change h. h;
  default_cleared = λ v matches now h. h;
  artifact_updated = λ v matches change h. h;
  history_added = λ v x h. h;
}

pub IsEnded-Preparation : (id : String) (state : ReceiveState) → Preparation (IsEnded id state)
IsEnded-Preparation id state = record {
  batch_added = λ v b h. any-append (ended id state) v.receive_batches (b ∷ []) ∙ ground arith;
  intent_added = λ v i h. h;
  artifact_added = λ v a h. h;
  transition_added = λ v t h. h;
  pointer_withheld = λ v matches change same closed h. h;
}

pub history_assoc :
    (l m : List PluginVersionHistory) (x : PluginVersionHistory)
    → (l ++ m) ++ x ∷ [] ≡ l ++ (m ++ x ∷ [])
history_assoc [] m x = refl
history_assoc (y ∷ l) m x = ap (λ k. y ∷ k) (history_assoc l m x)

pub history_nil : (l : List PluginVersionHistory) → l ≡ l ++ []
history_nil [] = refl
history_nil (y ∷ l) = ap (λ k. y ∷ k) (history_nil l)

pub IsHistorySince-Completion :
    (past : List PluginVersionHistory) → Completion (IsHistorySince past)
IsHistorySince-Completion past = record {
  bookkeeping = record {
    batch_updated = λ v matches change open_only h. h;
    intent_updated = λ v matches change open_only h. h;
    transition_updated = λ v matches change open_only h. h;
    pointer_updated = λ v matches change h. h;
    job_added = λ v jobs h. h;
  };
  version_updated = λ v matches change h. h;
  default_cleared = λ v matches now h. h;
  artifact_updated = λ v matches change h. h;
  history_added = λ v x h. (h.0 ++ x ∷ [], ap (λ l. l ++ x ∷ []) h.1 ∙ history_assoc past h.0 x);
}

pub IsHistorySince-Preparation :
    (past : List PluginVersionHistory) → Preparation (IsHistorySince past)
IsHistorySince-Preparation past = record {
  batch_added = λ v b h. h;
  intent_added = λ v i h. h;
  artifact_added = λ v a h. h;
  transition_added = λ v t h. h;
  pointer_withheld = λ v matches change same closed h. h;
}
