-- ===== src/Plugins/Kept.antt =====
-- mod/backend/domain/plugin/service.go: what reading a plugin leaves as it was, and how a property of
-- the tables is kept along the steps of a request.
use marketplace_server.Handler.{Step, refuse_if, ◌>>◌, ◌>>=◌}
use marketplace_server.Database.Tx
use marketplace_server.Base.{
  inl, inr, arith, refl, Result-cases, Bool, ◌≡◌, false, ok, String, Option, [], ◌∷◌, List, subst,
  Option-cases, sym,
}
use marketplace_server.Sql.{Engine}
use marketplace_server.Database.Tables.{Tables, Rows, Slot, view}
use marketplace_server.Plugins.Store.{
  find_by_slug, take_namespace, Aggregate, unresolved_receive_exists,
}
use marketplace_server.Plugins.Step.{Service, exec, PluginError, World, attempt, on_disk}
use mathlib.Core.Bool.{true}
use marketplace_server.Database.Statement.{join, select, select_lem, select_count}
use marketplace_server.Plugins.Lookup.{
  exact_aggregate, authorize_mutation, lock_plugin, authorize, authorize_exact_read,
}
use marketplace_server.Plugins.Lifecycle.{locked_aggregate, default_target}
use marketplace_server.Database.Error.{StoreError}
use marketplace_server.Identity.Model.{Namespace}
use marketplace_server.Database.Tx.{Tx, raise_if, pure-eq-ok, raise_if_lem, >>=-eq-ok}
use marketplace_server.Auth.Principal.{Principal}
use marketplace_server.Auth.Action.{Action}
use marketplace_server.Identity.Store.{first_or}
use marketplace_server.Plugins.Publish.{confirmed_inspection, publish_target, inspect}

module _ {E S A B : Type 0} (P : S → Type 0) where
  -- A property is kept by two steps where it is kept by the first, and by the second after it.
  pub >>=-keeps :
      (m : Step E S A) (f : A → Step E S B) (s : S)
      → P (m s).1
      → ((a : A) → (m s).0 ≡ ok a → P (f a (m s).1).1)
      → P ((m >>= f) s).1
  unfolding ◌>>=◌
  >>=-keeps m f s h k = elim (Result-cases (m s).0) [
    | inl (a, q) ↦ rw (◌>>=◌, q) (k a q)
    | inr (x, q) ↦ rw (◌>>=◌, q) h
  ]

-- A step keeps a property of what it runs on.
abbrev pub Keeps : {E S A : Type 0} → (S → Type 0) → Step E S A → Type 0
Keeps {S = S} P m = (s : S) → P s → P (m s).1

module _ {E S A B : Type 0} (P : S → Type 0) where
  pub seq-Keeps :
      (m : Step E S A) (f : A → Step E S B)
      → Keeps P m
      → ((a : A) → Keeps P (f a))
      → Keeps P (m >>= f)
  seq-Keeps m f h k s p = >>=-keeps P m f s (h s p) (λ a q. k a (m s).1 (h s p))

module _ {E S : Type 0} (P : S → Type 0) where
  pub refuse_if-Keeps : (b : Bool) (x : E) → Keeps P (refuse_if b x)
  refuse_if-Keeps true x s p = p
  refuse_if-Keeps false x s p = p

  -- What follows a refusal knows that it was not refused.
  pub refused-Keeps :
      {B : Type 0} (b : Bool) (x : E) (next : Step E S B)
      → (b ≡ false → Keeps P next)
      → Keeps P (refuse_if b x >> next)
  unfolding ◌>>=◌
  refused-Keeps true x next k s p = p
  refused-Keeps false x next k s p = k refl s p

-- A property of the rows, of what a request runs on.
abbrev pub Holds : {e : Engine} {W : Type 0} → (Rows → Type 0) → World e W → Type 0
Holds {e = e} P w = P (view e w.tables)

-- A statement or a transaction keeps a property of the rows where it succeeds.
abbrev pub TxKeeps : {e : Engine} {A : Type 0} → (Rows → Type 0) → Tx (Tables e) A → Type 0
TxKeeps {e = e} {A = A} P m =
    (s s' : Tables e) (a : A) → m s ≡ ok (a, s') → P (view e s) → P (view e s')

module _ {e : Engine} {A B : Type 0} (P : Rows → Type 0) where
  pub tx_seq-keeps :
      (m : Tx (Tables e) A) (f : A → Tx (Tables e) B)
      → TxKeeps P m
      → ((a : A) → TxKeeps P (f a))
      → TxKeeps P (Tx.◌>>=◌ m f)
  tx_seq-keeps m f h k s s' b r p =
      let (a, t, q, r') = >>=-eq-ok m f s s' b r in k a t s' b r' (h s t a q p)

module _ {e : Engine} (P : Rows → Type 0) where
  pub raise_if-keeps : (b : Bool) (x : StoreError) → TxKeeps {e = e} P (raise_if b x)
  raise_if-keeps b x s s' a r p = subst (λ t. P (view e t)) (sym (raise_if_lem b x s s' r).1) p

  pub tx_pure-keeps : {A : Type 0} (a : A) → TxKeeps {e = e} P (Tx.pure a)
  tx_pure-keeps a s s' b r p = subst (λ t. P (view e t)) (pure-eq-ok a b s s' r) p

  pub first_or-keeps : {A : Type 0} (x : StoreError) (l : List A) → TxKeeps {e = e} P (first_or x l)
  first_or-keeps x [] s s' a r p = cc
  first_or-keeps x (b ∷ l) s s' a r p = tx_pure-keeps b s s' a r p

  pub select-keeps : {A : Type 0} (slot : Slot e A) (q : A → Bool) → TxKeeps P (select slot q)
  select-keeps slot q s s' a r p = subst (λ t. P (view e t)) (sym (select_lem slot q s s' a r).0) p

module _ {e : Engine} {W A : Type 0} (P : Rows → Type 0) where
  pub exec-Keeps :
      (f : StoreError → PluginError) (m : Tx (Tables e) A)
      → TxKeeps P m
      → Keeps (Holds {e = e} {W = W} P) (exec f m)
  unfolding exec
  exec-Keeps f m h w p = elim (Result-cases (m w.tables)) [
    | inl ((a, t), q) ↦ rw q (h w.tables t a q p)
    | inr (x, q) ↦ rw q p
  ]

  pub attempt-Keeps :
      (m : Tx (Tables e) A) → TxKeeps P m → Keeps (Holds {e = e} {W = W} P) (attempt m)
  unfolding attempt
  attempt-Keeps m h w p = elim (Result-cases (m w.tables)) [
    | inl ((a, t), q) ↦ rw q (h w.tables t a q p)
    | inr (x, q) ↦ rw q p
  ]

  pub on_disk-Keeps :
      (x : PluginError) (m : W → Option A × W) → Keeps (Holds {e = e} {W = W} P) (on_disk x m)
  unfolding on_disk
  on_disk-Keeps x m w p = elim (Option-cases (m w.disk).0) [ inl q ↦ rw q p | inr (a, q) ↦ rw q p ]

module _ {e : Engine} where
  pub find_by_slug-state :
      (namespace_id slug : String) (s s' : Tables e) (a : Aggregate)
      → find_by_slug namespace_id slug s ≡ ok (a, s')
      → s' ≡ s
  unfolding find_by_slug Tx.◌>>=◌ join
  find_by_slug-state namespace_id slug s s' a h = ground arith

  pub take_namespace-state :
      (slug : String) (s s' : Tables e) (n : Namespace)
      → take_namespace slug s ≡ ok (n, s')
      → s' ≡ s
  unfolding take_namespace Tx.◌>>=◌ select
  take_namespace-state slug s s' n h = ground arith

module _ {e : Engine} {W : Type 0} (service : Service e W) where
  pub exact_aggregate-state :
      (namespace_slug plugin_slug : String) (w : World e W)
      → (exact_aggregate service namespace_slug plugin_slug w).1 ≡ w
  unfolding exact_aggregate exec find_by_slug take_namespace ◌>>=◌ Tx.◌>>=◌ join select
  exact_aggregate-state namespace_slug plugin_slug w = ground arith

  pub locked_aggregate-state :
      (p : Principal) (action : Action) (namespace_slug plugin_slug : String) (w : World e W)
      → (locked_aggregate service p action namespace_slug plugin_slug w).1 ≡ w
  unfolding locked_aggregate authorize_mutation lock_plugin exec find_by_slug ◌>>=◌ Tx.◌>>=◌ join
  locked_aggregate-state p action namespace_slug plugin_slug w =
      ground (arith, exact_aggregate-state namespace_slug plugin_slug w)

module _ {e : Engine} {W : Type 0} (service : Service e W) where
  pub publish_target-state :
      (p : Principal) (namespace_slug plugin_slug : String) (w : World e W)
      → (publish_target service p namespace_slug plugin_slug w).1 ≡ w
  unfolding publish_target authorize authorize_exact_read lock_plugin exec find_by_slug ◌>>=◌
      Tx.◌>>=◌ join
  publish_target-state p namespace_slug plugin_slug w =
      ground (arith, exact_aggregate-state service namespace_slug plugin_slug w)

  pub default_target-state :
      (p : Principal) (namespace_slug plugin_slug : String) (w : World e W)
      → (default_target service p namespace_slug plugin_slug w).1 ≡ w
  unfolding default_target authorize_mutation lock_plugin exec unresolved_receive_exists
      select_count ◌>>=◌
  default_target-state p namespace_slug plugin_slug w =
      ground (arith, exact_aggregate-state service namespace_slug plugin_slug w)

  -- Inspecting a source reads no table.
  pub confirmed_inspection-tables :
      (a : Aggregate) (tag : String) (w : World e W)
      → (confirmed_inspection service a tag w).1.tables ≡ w.tables
  unfolding confirmed_inspection inspect on_disk ◌>>=◌
  confirmed_inspection-tables a tag w = ground arith

module _ {e : Engine} (P : Rows → Type 0) where
  pub find_by_slug-keeps :
      (namespace_id slug : String) → TxKeeps {e = e} P (find_by_slug namespace_id slug)
  find_by_slug-keeps namespace_id slug s s' a r p =
      subst (λ t. P (view e t)) (sym (find_by_slug-state namespace_id slug s s' a r)) p

  pub take_namespace-keeps : (slug : String) → TxKeeps {e = e} P (take_namespace slug)
  take_namespace-keeps slug s s' n r p =
      subst (λ t. P (view e t)) (sym (take_namespace-state slug s s' n r)) p
