-- ===== src/Git/Settled.antt =====
-- mod/git/receive.go: when a push counts as completed, and when as aborted.
use marketplace_server.Base.{
  [], ◌∷◌, refl, arith, inl, inr, List, Option, Bool, some, ◌≡◌, if◌then◌else◌, is_some, true,
  Bool-cases, all, not, ◌&&◌, ◌∙◌, Option-cases, eqb, length,
}
use marketplace_server.Git.Bytes.{same, Bytes, is_nil}
use marketplace_server.Git.Resolution.{
  index_from, settle, ObservedReceiveRef, lookup, PreparedReceiveTransition, ReceiveDisposition,
  is_at_new, completed, is_at_old, aborted, manual_required, classify_receive_resolution, settled,
  PreparedReceiveBatch, no_transitions,
}
use mathlib.Core.Option.{none}

-- What both loops decide, without their early returns: of the references read again, and the
-- transitions.
abbrev pub disposition_of :
    List ObservedReceiveRef → List PreparedReceiveTransition → ReceiveDisposition
disposition_of observed ts =
    if all (is_at_new observed) ts
    then completed
    else if all (is_at_old observed) ts
    then aborted
    else manual_required

-- Every observed reference is named, and no two have one name.
abbrev pub is_indexable : List ObservedReceiveRef → Bool
is_indexable [] = true
is_indexable (r ∷ rs) =
    not (is_nil r.ref_name) && not (is_some (lookup r.ref_name rs)) && is_indexable rs

same-eq : (a b : Bytes) → same a b ≡ true → a ≡ b
unfolding same
same-eq [] [] h = refl
same-eq [] (b ∷ l) h = absurd (cc h)
same-eq (a ∷ l) [] h = absurd (cc h)
same-eq (a ∷ l) (b ∷ m) h =
    let first : a ≡ b = ground arith in cc (same-eq l m (ground arith), first)

same_refl : (a : Bytes) → same a a ≡ true
unfolding same
same_refl [] = refl
same_refl (a ∷ l) = ground (arith, same_refl l)

settle_lem :
    (by_ref : List ObservedReceiveRef) (p o : Bool) (ts : List PreparedReceiveTransition)
    → settle by_ref p o ts ≡ (
        if p && all (is_at_new by_ref) ts
        then completed
        else if o && all (is_at_old by_ref) ts
        then aborted
        else manual_required)
unfolding settle
settle_lem by_ref p o [] = ground arith
settle_lem by_ref p o (t ∷ ts) =
    ground (arith, settle_lem by_ref (p && is_at_new by_ref t) (o && is_at_old by_ref t) ts)

-- A name that the map holds is not a name that is added to it.
index_from-fresh :
    (filled rs idx : List ObservedReceiveRef) (name : Bytes)
    → index_from filled rs ≡ some idx
    → is_some (lookup name filled) ≡ true
    → lookup name rs ≡ none
unfolding index_from lookup
index_from-fresh filled [] idx name h k = refl
index_from-fresh filled (r ∷ rs) idx name h k = elim (Bool-cases (same r.ref_name name)) [
  | inl q ↦ (let e : r.ref_name ≡ name = same-eq _ _ q in absurd (ground (arith, e)))
  | inr q ↦ ground (arith, index_from-fresh (r ∷ filled) rs idx name)
]

abbrev or_else : Option ObservedReceiveRef → Option ObservedReceiveRef → Option ObservedReceiveRef
or_else none o = o
or_else (some r) o = some r

lookup-index_from :
    (filled rs idx : List ObservedReceiveRef) (name : Bytes)
    → index_from filled rs ≡ some idx
    → lookup name idx ≡ or_else (lookup name rs) (lookup name filled)
unfolding index_from lookup
lookup-index_from filled [] idx name h = ground arith
lookup-index_from filled (r ∷ rs) idx name h =
    let later : index_from (r ∷ filled) rs ≡ some idx = ground arith in
    ground (
      arith,
      lookup-index_from (r ∷ filled) rs idx name later,
      index_from-fresh (r ∷ filled) rs idx name later,
    )

same_sym : (a b : Bytes) → same a b ≡ same b a
unfolding same
same_sym [] [] = refl
same_sym [] (b ∷ m) = refl
same_sym (a ∷ l) [] = refl
same_sym (a ∷ l) (b ∷ m) = ground (arith, same_sym l m)

abbrev is_fresh : List ObservedReceiveRef → ObservedReceiveRef → Bool
is_fresh filled x = not (is_some (lookup x.ref_name filled))

all-is_fresh :
    (r : ObservedReceiveRef) (filled rs : List ObservedReceiveRef)
    → all (is_fresh (r ∷ filled)) rs
      ≡ (not (is_some (lookup r.ref_name rs)) && all (is_fresh filled) rs)
unfolding lookup
all-is_fresh r filled [] = refl
all-is_fresh r filled (x ∷ rs) =
    ground (arith, all-is_fresh r filled rs, same_sym r.ref_name x.ref_name)

is_some-index_from :
    (filled rs : List ObservedReceiveRef)
    → is_some (index_from filled rs) ≡ (is_indexable rs && all (is_fresh filled) rs)
unfolding index_from
is_some-index_from filled [] = refl
is_some-index_from filled (r ∷ rs) =
    ground (arith, is_some-index_from (r ∷ filled) rs, all-is_fresh r filled rs)

all_nothing : (rs : List ObservedReceiveRef) → all (is_fresh []) rs ≡ true
unfolding lookup
all_nothing [] = refl
all_nothing (r ∷ rs) = all_nothing rs

all_cong :
    (p q : PreparedReceiveTransition → Bool) (ts : List PreparedReceiveTransition)
    → ((t : PreparedReceiveTransition) → p t ≡ q t)
    → all p ts ≡ all q ts
all_cong p q [] h = refl
all_cong p q (t ∷ ts) h = ground (arith, h t, all_cong p q ts h)

lookup-index :
    (observed idx : List ObservedReceiveRef) (name : Bytes)
    → index_from [] observed ≡ some idx
    → lookup name idx ≡ lookup name observed
unfolding lookup
lookup-index observed idx name h = lookup-index_from [] observed idx name h ∙ ground arith

settled_lem :
    (observed : List ObservedReceiveRef) (ts : List PreparedReceiveTransition)
    → settled (index_from [] observed) ts
      ≡ (if is_indexable observed then disposition_of observed ts else manual_required)
settled_lem observed ts = elim (Option-cases (index_from [] observed)) [
  | inl q ↦ ground (arith, is_some-index_from [] observed, all_nothing observed)
  | inr (idx, q) ↦
      (let news : all (is_at_new idx) ts ≡ all (is_at_new observed) ts =
          all_cong _ _ ts (λ t. ground (arith, lookup-index observed idx t.ref_name q)) in
        let olds : all (is_at_old idx) ts ≡ all (is_at_old observed) ts =
          all_cong _ _ ts (λ t. ground (arith, lookup-index observed idx t.ref_name q)) in
        ground (
          arith,
          is_some-index_from [] observed,
          all_nothing observed,
          settle_lem idx true true ts,
          news,
          olds,
        ))
]

-- A push is completed exactly when it has a name, as many references were observed as it has
-- transitions, at least one, each under a name of its own, and every transition finds its reference
-- at the new object. It is aborted exactly when all that holds of the old objects and not of the
-- new. In every other case, a reference that was not observed included, it is left to be settled by
-- hand.
pub classify_receive_resolution_lem :
    (prepared : PreparedReceiveBatch) (observed : List ObservedReceiveRef)
    → classify_receive_resolution prepared observed ≡ (
        if not (is_nil prepared.id)
          && not (no_transitions prepared.transitions)
          && eqb (length observed) (length prepared.transitions)
          && is_indexable observed
        then disposition_of observed prepared.transitions
        else manual_required)
unfolding classify_receive_resolution
classify_receive_resolution_lem prepared observed =
    ground (arith, settled_lem observed prepared.transitions)
