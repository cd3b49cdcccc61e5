-- ===== src/Receive/Withheld.antt =====
-- mod/backend/domain/plugin/receive/coordinator.go: what is no longer served once a batch is prepared.
use marketplace_server.Base.{
  [], ◌∷◌, Bool, List, String, ℕ, ◌≡◌, any, true, false, not, ◌&&◌, ◌==◌, arith, ok, none, ap,
  if◌then◌else◌, subst, ◌∙◌, sym, Result-cases, inl, inr,
}
use marketplace_server.Sql.{
  Engine, All, map_where, any-map_where, All-true, any_of_count, All-weaken,
}
use marketplace_server.Database.Tables.{Rows, Tables, Slot, view}
use marketplace_server.Database.Tx.{>>=-eq-ok, raise_if_lem, transaction, Tx}
use marketplace_server.Database.Statement.{update_lem, update}
use marketplace_server.Receive.Writes.{update_exact, or_manual, Fresh}
use marketplace_server.Receive.Prepare.{
  persist_prepared, persist_prepared_body, prepare_plans, prepare_revisions, withhold_pointer,
  ReceivePlan, RevisionPlan,
}
use marketplace_server.Receive.PrepareKept.{
  Preparation, prepare_revisions-keeps, prepare_plans-keeps,
}
use marketplace_server.Plugins.Model.{RevisionProjectionPointer}
use marketplace_server.Plugins.Slots.{pointers}

-- The pointer with the identifier serves nothing.
abbrev pub is_withheld : String → RevisionProjectionPointer → Bool
is_withheld id p = p.id == id && not p.available

abbrev pub IsWithheld : String → Rows → Type 0
IsWithheld id v = any (is_withheld id) v.pointers ≡ true

-- Every pointer of a plan serves nothing.
abbrev pub WithholdsPlan : Rows → ReceivePlan → Type 0
WithholdsPlan v plan = All (λ r. IsWithheld r.pointer.id v) plan.revisions

stays_withheld :
    (id : String) (b : Bool) (p q : RevisionProjectionPointer)
    → q.id ≡ p.id
    → q.available ≡ false
    → is_withheld id p ≡ true
    → is_withheld id (if b then q else p) ≡ true
stays_withheld id true p q same closed h = ground (arith, ap (λ x. x == id) same)
stays_withheld id false p q same closed h = h

IsWithheld-Preparation : (id : String) → Preparation (IsWithheld id)
IsWithheld-Preparation id = record {
  batch_added = λ v b h. h;
  intent_added = λ v i h. h;
  artifact_added = λ v a h. h;
  transition_added = λ v t h. h;
  pointer_withheld = λ v matches change same closed h.
      any-map_where (is_withheld id) matches change v.pointers
        (All-true _ v.pointers
          (λ p k. stays_withheld id (matches p) p (change p) (same p) (closed p) k))
        h;
}

-- A transaction without an error left what its body wrote.
committed :
    {S : Type 0} (body : Tx S (Unit {0})) (s s' : S)
    → transaction body s ≡ (none, s')
    → body s ≡ ok (tt, s')
unfolding transaction
committed body s s' h = elim (Result-cases (body s)) [
  | inl ((u, t), q) ↦ ground arith
  | inr (x, q) ↦ ground arith
]

-- An update leaves a row with what it makes of each row that it matches.
updated_any :
    {A : Type 0} (r q : A → Bool) (f : A → A) (l : List A)
    → ((a : A) → q a ≡ true → r (f a) ≡ true)
    → any q l ≡ true
    → any r (map_where q f l) ≡ true
updated_any r q f [] h k = cc
updated_any r q f (a ∷ l) h k = ground (arith, h a, updated_any r q f l h)

module _ {e : Engine} where
  update_exact_lem :
      {A : Type 0} (slot : Slot e A) (q : A → Bool) (f : A → A) (s s' : Tables e)
      → update_exact slot q f s ≡ ok (tt, s')
      → (view e s' ≡ slot.set (view e s) (map_where q f (slot.rows (view e s))))
        × (any q (slot.rows (view e s)) ≡ true)
  unfolding update_exact or_manual
  update_exact_lem slot q f s s' h =
      let (n, t, first, rest) = >>=-eq-ok (or_manual (update slot q f)) _ s s' tt h in
      let (one, same) = raise_if_lem _ _ t s' rest in
      let (after, matched) = update_lem slot q f s t n (ground arith) in
      (ap (view e) same ∙ after, any_of_count q _ (ground arith))

  withhold_pointer_lem :
      (pointer : RevisionProjectionPointer) (now : ℕ) (s s' : Tables e)
      → withhold_pointer pointer now s ≡ ok (tt, s')
      → IsWithheld pointer.id (view e s')
  unfolding withhold_pointer
  withhold_pointer_lem pointer now s s' h =
      let (after, matched) = update_exact_lem (pointers e) _ _ s s' h in
      subst (IsWithheld pointer.id) (sym after)
        (updated_any (is_withheld pointer.id) _ _ (view e s).pointers (λ p k. ground arith) matched)

  prepare_revisions-IsWithheld :
      (fresh : Fresh) (plugin_id : String) (plan : ReceivePlan) (revisions : List RevisionPlan)
      (now : ℕ) (s s' : Tables e)
      → prepare_revisions fresh plugin_id plan revisions now s ≡ ok (tt, s')
      → All (λ r. IsWithheld r.pointer.id (view e s')) revisions
  unfolding prepare_revisions
  prepare_revisions-IsWithheld fresh plugin_id plan [] now s s' h = tt
  prepare_revisions-IsWithheld fresh plugin_id plan (r ∷ revisions) now s s' h =
      let (a, t, staged, h1) = >>=-eq-ok _ _ s s' tt h in
      let (u, t1, inserted, h2) = >>=-eq-ok _ _ t s' tt h1 in
      let (w, t2, closed, h3) = >>=-eq-ok (withhold_pointer r.pointer now) _ t1 s' tt h2 in
      (
        prepare_revisions-keeps (IsWithheld-Preparation r.pointer.id) fresh plugin_id plan revisions
            now t2 s' tt h3 (withhold_pointer_lem r.pointer now t1 t2 closed),
        prepare_revisions-IsWithheld fresh plugin_id plan revisions now t2 s' h3,
      )

  prepare_plans-WithholdsPlan :
      (fresh : Fresh) (batch_id plugin_id : String) (plans : List ReceivePlan) (now : ℕ)
      (s s' : Tables e)
      → prepare_plans fresh batch_id plugin_id plans now s ≡ ok (tt, s')
      → All (WithholdsPlan (view e s')) plans
  unfolding prepare_plans
  prepare_plans-WithholdsPlan fresh batch_id plugin_id [] now s s' h = tt
  prepare_plans-WithholdsPlan fresh batch_id plugin_id (plan ∷ plans) now s s' h =
      let (u, t, inserted, h1) = >>=-eq-ok _ _ s s' tt h in
      let (w, t1, prepared, h2) =
        >>=-eq-ok (prepare_revisions fresh plugin_id plan plan.revisions now) _ t s' tt h1 in
      (
        All-weaken
            (λ r k.
              prepare_plans-keeps (IsWithheld-Preparation r.pointer.id) fresh batch_id plugin_id
                plans now t1 s' tt h2 k)
            plan.revisions
            (prepare_revisions-IsWithheld fresh plugin_id plan plan.revisions now t t1 prepared),
        prepare_plans-WithholdsPlan fresh batch_id plugin_id plans now t1 s' h2,
      )

  -- Where the transaction of `persistPrepared` succeeds, no projection that it plans to replace or to
  -- take away is served: the pointer of each revision of each plan is in the table and not available.
  pub persist_prepared-WithholdsPlan :
      (fresh : Fresh) (batch_id plugin_id session_id : String) (plans : List ReceivePlan) (now : ℕ)
      (s s' : Tables e)
      → persist_prepared fresh batch_id plugin_id session_id plans now s ≡ (none, s')
      → All (WithholdsPlan (view e s')) plans
  unfolding persist_prepared persist_prepared_body
  persist_prepared-WithholdsPlan fresh batch_id plugin_id session_id plans now s s' h =
      let (u, t, inserted, rest) = >>=-eq-ok _ _ s s' tt (committed _ s s' h) in
      prepare_plans-WithholdsPlan fresh batch_id plugin_id plans now t s' rest
