-- ===== src/Git/Resolution.antt =====
-- mod/git/receive.go: `ClassifyReceiveResolution`, what became of a push whose references were read
-- again. The types are those of pkg/gitservice/receive.go.
use marketplace_server.Base.{
  [], ◌∷◌, List, Option, Bool, if◌then◌else◌, none, some, false, true, ◌&&◌, is_some, not, ◌||◌,
  eqb, length,
}
use marketplace_server.Git.Bytes.{Bytes, is_nil, same}
use marketplace_server.Git.Commands.{all_zero_object_id}

pub data ReceiveDisposition : Type 0 where
  completed aborted manual_required : ReceiveDisposition

pub record ObservedReceiveRef : Type 0 where
  pub ref_name : Bytes
  pub object_id : Bytes
  pub exists : Bool

pub record PreparedReceiveTransition : Type 0 where
  pub ref_name : Bytes
  pub expected_old_object_id : Bytes
  pub proposed_new_object_id : Bytes

pub record PreparedReceiveBatch : Type 0 where
  pub id : Bytes
  pub transitions : List PreparedReceiveTransition

-- `observedObjectIDMatches`
unfoldable pub observed_object_id_matches : ObservedReceiveRef → Bytes → Bool
observed_object_id_matches observed expected =
    if all_zero_object_id expected
    then not observed.exists
    else observed.exists && same observed.object_id expected

-- The map `observedByRef` as the list of its entries.
unfoldable pub lookup : Bytes → List ObservedReceiveRef → Option ObservedReceiveRef
lookup name [] = none
lookup name (r ∷ rs) = if same r.ref_name name then some r else lookup name rs

-- The loop that fills the map; `none` where it returns early.
unfoldable pub index_from :
    List ObservedReceiveRef → List ObservedReceiveRef → Option (List ObservedReceiveRef)
unfolding lookup
index_from filled [] = some filled
index_from filled (r ∷ rs) =
    let rest = index_from (r ∷ filled) rs in
    if is_nil r.ref_name then none else if is_some (lookup r.ref_name filled) then none else rest

-- The loop over the transitions, with `allProposed` and `allOld`; it may return early.
unfoldable pub settle :
    List ObservedReceiveRef → Bool → Bool → List PreparedReceiveTransition → ReceiveDisposition
unfolding observed_object_id_matches lookup
settle by_ref all_proposed all_old [] =
    if all_proposed then completed else if all_old then aborted else manual_required
settle by_ref all_proposed all_old (t ∷ ts) = elim (lookup t.ref_name by_ref) [
  | none ↦ manual_required
  | some r ↦
      (let proposed = observed_object_id_matches r t.proposed_new_object_id in
        let old = observed_object_id_matches r t.expected_old_object_id in
        let rest = settle by_ref (all_proposed && proposed) (all_old && old) ts in
        if not proposed && not old then manual_required else rest)
]

abbrev pub settled :
    Option (List ObservedReceiveRef) → List PreparedReceiveTransition → ReceiveDisposition
settled none ts = manual_required
settled (some by_ref) ts = settle by_ref true true ts

abbrev pub no_transitions : List PreparedReceiveTransition → Bool
no_transitions [] = true
no_transitions (_ ∷ _) = false

-- The disposition that `ClassifyReceiveResolution` answers.
unfoldable pub classify_receive_resolution :
    PreparedReceiveBatch → List ObservedReceiveRef → ReceiveDisposition
unfolding settle index_from
classify_receive_resolution prepared observed =
    if is_nil prepared.id
      || no_transitions prepared.transitions
      || not (eqb (length observed) (length prepared.transitions))
    then manual_required
    else settled (index_from [] observed) prepared.transitions

-- What was observed of a reference, when it was, is what the given function takes from a transition.
abbrev pub finds : List ObservedReceiveRef → Bytes → Bytes → Bool
finds observed name expected = elim (lookup name observed) [
  | none ↦ false
  | some r ↦ observed_object_id_matches r expected
]

abbrev pub is_at_new : List ObservedReceiveRef → PreparedReceiveTransition → Bool
is_at_new observed t = finds observed t.ref_name t.proposed_new_object_id

abbrev pub is_at_old : List ObservedReceiveRef → PreparedReceiveTransition → Bool
is_at_old observed t = finds observed t.ref_name t.expected_old_object_id
