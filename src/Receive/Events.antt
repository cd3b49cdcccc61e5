-- ===== src/Receive/Events.antt =====
-- mod/backend/domain/plugin: what lasts while requests on plugins, of service.go, and writes of
-- coordinator.go follow one another, each as a whole, in any order.
use marketplace_server.Base.{[], ◌∷◌, ◌++◌, List, String, ℕ, ap, ◌∙◌}
use marketplace_server.Database.Tables.{Rows, view}
use marketplace_server.Sql.{Engine}
use marketplace_server.Auth.Principal.{Principal}
use marketplace_server.Plugins.Step.{Service, World}
use marketplace_server.Plugins.Publish.{perform, PluginRequest}
use marketplace_server.Plugins.Invariant.{Invariant}
use marketplace_server.Plugins.Lasting.{perform-Keeps}
use marketplace_server.Receive.Final.{
  CoordinatorWrite, commit, commit-keeps, IsEnded, IsHistorySince, IsEnded-Completion,
  IsEnded-Preparation, IsHistorySince-Completion, IsHistorySince-Preparation, history_assoc,
  history_nil,
}
use marketplace_server.Receive.Writes.{Fresh}
use marketplace_server.Receive.PrepareKept.{Preparation}
use marketplace_server.Plugins.Model.{
  PluginVersionHistory, ReceiveState, RevisionProjectionTransition,
}
use marketplace_server.Receive.Kept.{Completion}

pub data Event : Type 0 where
  request : Principal → String → String → ℕ → PluginRequest → Event
  coordinated : Fresh → String → List RevisionProjectionTransition → ℕ → CoordinatorWrite → Event

module _ {e : Engine} {W : Type 0} (service : Service e W) where
  -- What an event leaves, whatever it answers.
  abbrev pub after : Event → World e W → World e W
  after (request p ns slug now r) w = (perform service p ns slug now r w).1
  after (coordinated fresh id ts now write) w = record w {
    tables = (commit fresh id ts now write w.tables).1;
  }

  abbrev pub after_all : List Event → World e W → World e W
  after_all [] w = w
  after_all (x ∷ events) w = after_all events (after x w)

  after_all-keeps :
      {P : Rows → Type 0}
      → Invariant P
      → Preparation P
      → Completion P
      → (events : List Event) (w : World e W) → P (view e w.tables)
      → P (view e (after_all events w).tables)
  after_all-keeps requests added settled [] w h = h
  after_all-keeps requests added settled (request p ns slug now r ∷ events) w h =
      after_all-keeps requests added settled events _
        (perform-Keeps requests service p ns slug now r w h)
  after_all-keeps requests added settled (coordinated fresh id ts now write ∷ events) w h =
      after_all-keeps requests added settled events _
        (commit-keeps added settled fresh id ts now write w.tables h)

IsEnded-Invariant : (id : String) (state : ReceiveState) → Invariant (IsEnded id state)
IsEnded-Invariant id state = record {
  plugin_updated = λ v matches change safe h. h;
  plugin_added = λ v p c h. h;
  repository_added = λ v r h. h;
  cleanup_added = λ v c h. h;
  history_added = λ v x h. h;
  version_added = λ v n fresh h. h;
  version_updated = λ v matches change deleted h. h;
}

IsHistorySince-Invariant : (past : List PluginVersionHistory) → Invariant (IsHistorySince past)
IsHistorySince-Invariant past = record {
  plugin_updated = λ v matches change safe h. h;
  plugin_added = λ v p c h. h;
  repository_added = λ v r h. h;
  cleanup_added = λ v c h. h;
  history_added = λ v x h. (h.0 ++ x ∷ [], ap (λ l. l ++ x ∷ []) h.1 ∙ history_assoc past h.0 x);
  version_added = λ v n fresh h. h;
  version_updated = λ v matches change deleted h. h;
}

module _ {e : Engine} {W : Type 0} (service : Service e W) where
  -- A batch of a receive that was completed or aborted stays so through any sequence of requests of
  -- the plugin service and of writes of the coordinator (preparing a batch, resolving it, leaving it
  -- to be settled by hand, and failing an artifact), on this batch or on others: it is neither taken
  -- back, nor aborted after it was completed, nor the other way round. Recovery is not among these.
  pub after_all-IsEnded :
      (events : List Event) (id : String) (state : ReceiveState) (w : World e W)
      → IsEnded id state (view e w.tables)
      → IsEnded id state (view e (after_all service events w).tables)
  after_all-IsEnded events id state w h =
      after_all-keeps service (IsEnded-Invariant id state) (IsEnded-Preparation id state)
        (IsEnded-Completion id state) events w h

  -- Any sequence of requests of the plugin service and of writes of the coordinator (preparing a
  -- batch, resolving it, leaving it to be settled by hand, and failing an artifact) leaves the history
  -- of published versions that was recorded before it at the front of the history, in its order.
  -- Recovery is not among these.
  pub after_all-IsHistorySince :
      (events : List Event) (w : World e W)
      → IsHistorySince
          (view e w.tables).plugin_version_history
          (view e (after_all service events w).tables)
  after_all-IsHistorySince events w =
      let past = (view e w.tables).plugin_version_history in
      after_all-keeps service (IsHistorySince-Invariant past) (IsHistorySince-Preparation past)
        (IsHistorySince-Completion past) events w ([], history_nil past)
