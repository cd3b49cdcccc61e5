-- ===== src/Identity/Lock.antt =====
-- The locks that `Repository` takes before it reads what a guard depends on
-- (`lockTeamMemberships`, `lockSystemAdministrators`), and gorm's `Create` behind a hook.
use Prim.Native.String
use marketplace_server.Sql.{Engine, answered, failed, map_where_id}
use marketplace_server.Identity.Store.{Tables, Slot, team_memberships, users, view, first_or}
use marketplace_server.Database.Statement.{update, insert, update_lem, insert_lem}
use marketplace_server.Database.Tx.{Tx, pure, raise, ◌>>◌, >>=-eq-ok}
use Prim.Native.String.{String}
use marketplace_server.Identity.Model.{Check, database, StoreError, conflict}
use marketplace_server.Base.{
  ◌≡◌, Bool, ok, ◌==◌, none, some, any, arith, err, false, ◌++◌, ◌∷◌, refl, [], is_some,
  if◌then◌else◌, ◌||◌, List,
}
use text.Mathlib.Text.{find?}
use marketplace_server.Platform.{Platform}
use marketplace_server.Identity.Text.{to_lower}

-- `tx.Dialector.Name()`
pub data Dialect : Type 0 where
  postgres sqlite : Dialect
  unlisted : String → Dialect

-- `strings.Contains`
unfoldable pub contains : String → String → Bool
contains s part = is_some (find? s part)

unfoldable pub conflict_of : Platform → StoreError → StoreError
unfolding contains
conflict_of env (database m) =
    let message = to_lower env m in
    if contains message "unique constraint" || contains message "duplicate key"
    then conflict
    else database m
conflict_of env x = x

module _ {e : Engine} where
  unfoldable pub advisory_lock : String → Tx (Tables e) (Unit {0})
  advisory_lock name s = elim (e.advisory_lock name) [
    | answered _ ↦ ok (tt, s)
    | failed m ↦ err (database m)
  ]

  unfoldable pub lock_team_memberships : Dialect → String → Tx (Tables e) (Unit {0})
  lock_team_memberships postgres namespace_id =
      advisory_lock (String.◌++◌ "team-membership:" namespace_id)
  lock_team_memberships sqlite namespace_id = do
    update (team_memberships e) (λ m. m.namespace_id == namespace_id)
        (λ m. record m { updated_at = m.updated_at })
    pure tt
  lock_team_memberships (Dialect.unlisted _) namespace_id = pure tt

  unfoldable pub lock_system_administrators : Dialect → String → Tx (Tables e) (Unit {0})
  lock_system_administrators postgres target_user_id =
      advisory_lock "identity:system-administrators"
  lock_system_administrators sqlite target_user_id = do
    update (users e) (λ u. u.id == target_user_id) (λ u. record u { updated_at = u.updated_at })
    pure tt
  lock_system_administrators (Dialect.unlisted _) target_user_id = pure tt

  -- gorm's `Create`: the hook's error, or the statement.
  unfoldable pub create :
      {A : Type 0} → Slot e A → Check → (A → Bool) → A → Tx (Tables e) (Unit {0})
  create slot none clash a = insert slot clash a
  create slot (some x) clash a = raise x

  -- A unique violation is a conflict, and is told by the message of the driver
  -- (`isUniqueConstraintError`).
  unfoldable pub as_conflict : Platform → Tx (Tables e) (Unit {0}) → Tx (Tables e) (Unit {0})
  as_conflict env m s = elim (m s) [ ok x ↦ ok x | err x ↦ err (conflict_of env x) ]

  pub as_conflict_lem :
      (env : Platform) (m : Tx (Tables e) (Unit {0})) (s s' : Tables e)
      → as_conflict env m s ≡ ok (tt, s')
      → m s ≡ ok (tt, s')
  unfolding as_conflict
  as_conflict_lem env m s s' h = ground arith

  -- A lock changes nothing that can be seen.
  pub lock_team_memberships-view :
      (d : Dialect) (namespace_id : String) (s s' : Tables e)
      → lock_team_memberships d namespace_id s ≡ ok (tt, s')
      → view e s' ≡ view e s
  unfolding lock_team_memberships advisory_lock
  lock_team_memberships-view postgres namespace_id s s' h = ground arith
  lock_team_memberships-view sqlite namespace_id s s' h =
      let (n, t, q, r) = >>=-eq-ok _ _ s s' tt h in
      ground (
        arith,
        (update_lem (team_memberships e) _ _ s t n q).0,
        map_where_id (λ m. m.namespace_id == namespace_id)
            (λ m. record m { updated_at = m.updated_at }) (view e s).team_memberships (λ m. refl),
      )
  lock_team_memberships-view (Dialect.unlisted _) namespace_id s s' h = ground arith

  pub create_lem :
      {A : Type 0} (slot : Slot e A) (check : Check) (clash : A → Bool) (a : A) (s s' : Tables e)
      → create slot check clash a s ≡ ok (tt, s')
      → (check ≡ none)
        × (any clash (slot.rows (view e s)) ≡ false)
        × (view e s' ≡ slot.set (view e s) (slot.rows (view e s) ++ a ∷ []))
  unfolding create
  create_lem slot none clash a s s' h =
      let (fresh, after) = insert_lem slot clash a s s' h in (refl, fresh, after)
  create_lem slot (some x) clash a s s' h = cc

-- The row that `Take` returns is the first one found, and reading it changes nothing.
pub first_or_lem :
    {S A : Type 0} (x : StoreError) (found : List A) (s s' : S) (a : A)
    → first_or x found s ≡ ok (a, s')
    → s' ≡ s
first_or_lem x [] s s' a h = cc
first_or_lem x (b ∷ rest) s s' a h = ground arith

pub first_or_found :
    {S A : Type 0} (x : StoreError) (found : List A) (s s' : S) (a : A)
    → first_or x found s ≡ ok (a, s')
    → (s' ≡ s) × ((rest : List A) × (found ≡ a ∷ rest))
first_or_found x [] s s' a h = cc
first_or_found x (b ∷ rest) s s' a h = (ground arith, (rest, ground arith))
