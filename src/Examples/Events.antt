-- ===== src/Examples/Events.antt =====
-- A push that deletes a tag is prepared, and left to be settled by hand, between two requests of the shop.
use marketplace_server.Base.{[], ◌∷◌, refl, some, none, List, true, ◌≡◌}
use marketplace_server.Database.Tables.{view, Tables}
use marketplace_server.Plugins.Step.{World}
use marketplace_server.Plugins.Publish.{archival, publication}
use marketplace_server.Plugins.Model.{
  ReceiveState, VersionHistoryOperation, ReceiveOperation, RevisionProjectionPointer,
}
use marketplace_server.Receive.Prepare.{
  ReceivePlan, ProjectionKind, SourceTagType, RevisionPlan, persist_prepared, persist_prepared_body,
  prepare_plans, prepare_revisions, stage_artifact, withhold_pointer, projection_of, prepared_batch,
  prepared_intent, staged_artifact, pending_transition,
}
use marketplace_server.Receive.Final.{IsEnded, IsHistorySince, preparation, manual}
use marketplace_server.Receive.Events.{
  Event, request, coordinated, after_all, after_all-IsEnded, after_all-IsHistorySince,
}
use marketplace_server.Examples.Engines.{list_engine}
use marketplace_server.Examples.Plugins.{shop, user_named, stocked, next_version, tool_version, oid}
use marketplace_server.Examples.Pushes.{batch_in, plain_ids}
use marketplace_server.Database.Tx.{◌>>=◌, transaction}
use marketplace_server.Sql.{All}
use marketplace_server.Receive.Withheld.{WithholdsPlan, persist_prepared-WithholdsPlan}
use marketplace_server.Receive.Writes.{update_exact, or_manual}
use marketplace_server.Database.Statement.{insert, update}

-- One batch was completed, and the publication of one version is recorded.
abbrev busy : World list_engine (Unit {0})
busy = record stocked {
  tables = record stocked.tables {
    receive_batches = batch_in ReceiveState.completed ∷ [];
    plugin_version_history =
        record {
          id = "h1";
          plugin_id = "p1";
          tag = "v1.0.0";
          operation = VersionHistoryOperation.publish;
          old_commit_sha = none;
          new_commit_sha = some oid;
          intent_id = none;
          correlation_id = "c1";
          created_at = 2;
        }
        ∷ [];
  };
}

abbrev deleted_tag : ReceivePlan
deleted_tag = record {
  command = record {
    tag = "v1.0.0";
    ref_name = "refs/tags/v1.0.0";
    operation = ReceiveOperation.delete;
    old_object_id = oid;
    new_object_id = "0000000000000000000000000000000000000000";
    old_commit_object_id = oid;
    new_commit_object_id = "";
    new_manifest_digest = "";
    new_manifest_snapshot = [];
  };
  version = tool_version;
  intent_id = "i1";
  revisions = [];
  projections = [];
}

abbrev busy_day : List Event
busy_day =
    request (user_named "ann") "acme" "tool" 9 (publication next_version)
    ∷ coordinated plain_ids "b2" [] 10 (preparation "p1" "c2" (deleted_tag ∷ []))
    ∷ coordinated plain_ids "b2" [] 11 (manual "unexpected_ref")
    ∷ request (user_named "ann") "acme" "tool" 12 archival
    ∷ []

after_all-IsEnded_example :
    IsEnded "b1" ReceiveState.completed (view list_engine (after_all shop busy_day busy).tables)
after_all-IsEnded_example = after_all-IsEnded shop busy_day "b1" ReceiveState.completed busy refl

after_all-IsHistorySince_example :
    IsHistorySince
      (view list_engine busy.tables).plugin_version_history
      (view list_engine (after_all shop busy_day busy).tables)
after_all-IsHistorySince_example = after_all-IsHistorySince shop busy_day busy

-- The shop with its version and its history, and one batch that is still prepared.
abbrev waiting : Tables list_engine
waiting = record busy.tables { receive_batches = batch_in ReceiveState.prepared ∷ [] }

abbrev served_pointer : RevisionProjectionPointer
served_pointer = record {
  id = "q1";
  revision_id = "r1";
  plugin_id = "p1";
  tag = "v1.0.0";
  artifact_id = some "a1";
  generation = 4;
  available = true;
  updated_at = 2;
}

abbrev served_revision : RevisionPlan
served_revision = record { revision_id = "r1"; published_at = 2; pointer = served_pointer }

-- A move of the tag, with the projection that was built for the revision.
abbrev moved_tag : ReceivePlan
moved_tag = record {
  command = record deleted_tag.command {
    operation = ReceiveOperation.move;
    new_object_id = "89abcdef0123456789abcdef0123456789abcdef";
    new_commit_object_id = "89abcdef0123456789abcdef0123456789abcdef";
  };
  version = tool_version;
  intent_id = "i2";
  revisions = served_revision ∷ [];
  projections =
      record {
        revision = served_revision;
        result = record {
          projection = record { kind = ProjectionKind.plugin; storage_key = "built" };
          tag_name = "v1.0.0";
          source_tag_type = SourceTagType.lightweight;
          source_tag_object_id = "";
          source_commit_sha = "89abcdef0123456789abcdef0123456789abcdef";
          source_tree_sha = "tree";
          distribution_sha = "distribution";
          content_digest = "digest";
        };
      }
      ∷ [];
}

abbrev serving : Tables list_engine
serving = record busy.tables { pointers = served_pointer ∷ [] }

abbrev withheld : Tables list_engine
withheld = (persist_prepared plain_ids "b3" "p1" "c3" (moved_tag ∷ []) 9 serving).1

withheld_at_once :
    persist_prepared plain_ids "b3" "p1" "c3" (moved_tag ∷ []) 9 serving ≡ (none, withheld)
unfolding persist_prepared persist_prepared_body prepare_plans prepare_revisions stage_artifact
    withhold_pointer update_exact or_manual insert update ◌>>=◌ transaction projection_of
    prepared_batch prepared_intent staged_artifact pending_transition
withheld_at_once = refl

persist_prepared-WithholdsPlan_example :
    All (WithholdsPlan (view list_engine withheld)) (moved_tag ∷ [])
persist_prepared-WithholdsPlan_example =
    persist_prepared-WithholdsPlan plain_ids "b3" "p1" "c3" (moved_tag ∷ []) 9 serving withheld
      withheld_at_once
