-- ===== src/Receive/Classify.antt =====
-- mod/backend/domain/plugin/receive/coordinator.go: `classifyResolution`, by which the coordinator checks
-- what mod/git/receive.go makes of the references that were read again.
use marketplace_server.Base.{
  [], ◌∷◌, refl, arith, Option, List, Bool, ◌≡◌, Option-cases, if◌then◌else◌, inl, not, some, inr,
  true, ◌&&◌, ◌||◌, eqb, length,
}
use marketplace_server.Git.Resolution.{
  ObservedReceiveRef, classify_receive_resolution, index_from, lookup, observed_object_id_matches,
  PreparedReceiveBatch, settle, PreparedReceiveTransition, ReceiveDisposition, manual_required,
  settled, completed, aborted, no_transitions,
}
use marketplace_server.Git.Bytes.{Bytes, is_nil, all_zeros, same}
use mathlib.Core.Option.{none}

-- `observedMatches`
unfoldable pub observed_matches : ObservedReceiveRef → Bytes → Bool
observed_matches observed expected =
    if not (is_nil expected) && all_zeros expected
    then not observed.exists
    else observed.exists && same observed.object_id expected

-- The loop over the transitions, with `allOld` and `allProposed`.
unfoldable pub classify_from :
    List ObservedReceiveRef → Bool → Bool → List PreparedReceiveTransition → ReceiveDisposition
unfolding observed_matches lookup
classify_from by_ref all_old all_proposed [] =
    if all_proposed then completed else if all_old then aborted else manual_required
classify_from by_ref all_old all_proposed (t ∷ ts) = elim (lookup t.ref_name by_ref) [
  | none ↦ manual_required
  | some r ↦
      (let old = observed_matches r t.expected_old_object_id in
        let proposed = observed_matches r t.proposed_new_object_id in
        let rest = classify_from by_ref (all_old && old) (all_proposed && proposed) ts in
        if not old && not proposed then manual_required else rest)
]

abbrev classified :
    Option (List ObservedReceiveRef) → List PreparedReceiveTransition → ReceiveDisposition
classified none ts = manual_required
classified (some by_ref) ts = classify_from by_ref true true ts

-- `classifyResolution`; the map is filled as in mod/git/receive.go.
unfoldable pub classify_resolution :
    PreparedReceiveBatch → List ObservedReceiveRef → ReceiveDisposition
unfolding classify_from index_from
classify_resolution prepared observed =
    if is_nil prepared.id
      || no_transitions prepared.transitions
      || not (eqb (length prepared.transitions) (length observed))
    then manual_required
    else classified (index_from [] observed) prepared.transitions

matches-agree :
    (r : ObservedReceiveRef) (expected : Bytes)
    → observed_matches r expected ≡ observed_object_id_matches r expected
unfolding observed_matches observed_object_id_matches
matches-agree r expected = refl

classify_from-settle :
    (by_ref : List ObservedReceiveRef) (o p : Bool) (ts : List PreparedReceiveTransition)
    → classify_from by_ref o p ts ≡ settle by_ref p o ts
unfolding classify_from settle
classify_from-settle by_ref o p [] = refl
classify_from-settle by_ref o p (t ∷ ts) = elim (Option-cases (lookup t.ref_name by_ref)) [
  | inl q ↦ ground arith
  | inr (r, q) ↦ ground (
    arith,
    matches-agree r t.expected_old_object_id,
    matches-agree r t.proposed_new_object_id,
    classify_from-settle by_ref (o && observed_matches r t.expected_old_object_id)
        (p && observed_matches r t.proposed_new_object_id) ts,
  )
]

classified-settled :
    (o : Option (List ObservedReceiveRef)) (ts : List PreparedReceiveTransition)
    → classified o ts ≡ settled o ts
classified-settled none ts = refl
classified-settled (some by_ref) ts = classify_from-settle by_ref true true ts

-- Of a batch and the references that were read again, the coordinator and the Git side always make the
-- same disposition.
pub classify_resolution-agrees :
    (prepared : PreparedReceiveBatch) (observed : List ObservedReceiveRef)
    → classify_resolution prepared observed ≡ classify_receive_resolution prepared observed
unfolding classify_resolution classify_receive_resolution
classify_resolution-agrees prepared observed =
    ground (arith, classified-settled (index_from [] observed) prepared.transitions)
