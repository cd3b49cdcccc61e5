-- ===== src/Identity/TeamRepository.antt =====
-- mod/backend/domain/identity/dao/team_repository.go: teams and their members.
use marketplace_server.Identity.Hooks.{team_membership_before_create, namespace_before_create}
use marketplace_server.Identity.Lock.{Dialect, lock_team_memberships, create, as_conflict}
use marketplace_server.Database.Statement.{select, select_count, update, delete}
use marketplace_server.Identity.Store.{
  Tables, users, namespaces, team_memberships, clashes_namespace, same_team_membership, first_or,
}
use marketplace_server.Database.Tx.{Tx, pure, raise, ◌>>=◌, ◌>>◌, transaction}
use marketplace_server.Platform.{Platform}
use marketplace_server.Sql.{Engine}
use marketplace_server.Base.{
  eqb, if◌then◌else◌, ◌&&◌, not, ◌==◌, String, ℕ, Bool, List, true, ◌∷◌, false, [],
}
use marketplace_server.Role.{TeamRole, is_owner, same_role}
use marketplace_server.Identity.Model.{
  TeamMembership, Namespace, Check, conflict, not_found, is_active, NamespaceKind,
}

abbrev pub is_team_kind : NamespaceKind → Bool
is_team_kind NamespaceKind.team = true
is_team_kind _ = false

-- WHERE namespace_id = ? AND user_id = ?
abbrev pub is_member : String → String → TeamMembership → Bool
is_member namespace_id user_id m = m.namespace_id == namespace_id && m.user_id == user_id

-- WHERE namespace_id = ? AND role = 'owner' AND user_id <> ?
abbrev pub is_other_owner : String → String → TeamMembership → Bool
is_other_owner namespace_id excluded m =
    m.namespace_id == namespace_id && is_owner m.role && not (m.user_id == excluded)

module _ (env : Platform) {e : Engine} where
  unfoldable pub create_membership : TeamMembership → Tx (Tables e) (Unit {0})
  create_membership m =
      create (team_memberships e) (team_membership_before_create env m) (same_team_membership m) m

  unfoldable pub create_team_body : Namespace → TeamMembership → Tx (Tables e) (Unit {0})
  create_team_body namespace owner = do
    as_conflict env (
        create (namespaces e) (namespace_before_create env namespace) (clashes_namespace namespace)
          namespace)
    create_membership owner

  -- `CreateTeam`
  unfoldable pub create_team : Namespace → TeamMembership → Tables e → Check × Tables e
  unfolding create_team_body
  create_team namespace owner = transaction (create_team_body namespace owner)

module _ {e : Engine} where
  unfoldable pub ensure_other_owner : String → String → Tx (Tables e) (Unit {0})
  ensure_other_owner namespace_id excluded = do
    n ← select_count (team_memberships e) (is_other_owner namespace_id excluded)
    if eqb n 0 then raise conflict else pure tt

  -- The last owner of a team stays one.
  unfoldable pub guard_owner : Bool → String → String → Tx (Tables e) (Unit {0})
  guard_owner true namespace_id user_id = ensure_other_owner namespace_id user_id
  guard_owner false namespace_id user_id = pure tt

  unfoldable pub change_role :
      String → String → TeamRole → ℕ → TeamMembership → Tx (Tables e) (Unit {0})
  change_role namespace_id user_id role now current = do
    guard_owner (is_owner current.role && not (is_owner role)) namespace_id user_id
    update (team_memberships e) (is_member current.namespace_id current.user_id)
        (λ m. record m { role = role; updated_at = now })
    pure tt

  -- `RemoveTeamMember` once the current membership was found.
  unfoldable pub remove_found : String → String → TeamMembership → Tx (Tables e) (Unit {0})
  remove_found namespace_id user_id current = do
    guard_owner (is_owner current.role) namespace_id user_id
    delete (team_memberships e) (is_member current.namespace_id current.user_id)

module _ (env : Platform) {e : Engine} where
  -- `PutTeamMember` once the current membership was looked for.
  unfoldable pub put_found :
      String → String → TeamRole → ℕ → List TeamMembership → Tx (Tables e) (Unit {0})
  put_found namespace_id user_id role now [] = create_membership env (record {
    namespace_id = namespace_id;
    user_id = user_id;
    role = role;
    created_at = now;
    updated_at = now;
  })
  put_found namespace_id user_id role now (current ∷ _) =
      if same_role current.role role
      then pure tt
      else change_role namespace_id user_id role now current

module _ (dialect : Dialect) {e : Engine} where
  unfoldable pub remove_team_member_body : String → String → Tx (Tables e) (Unit {0})
  remove_team_member_body namespace_id user_id = do
    lock_team_memberships dialect namespace_id
    found ← select (team_memberships e) (is_member namespace_id user_id)
    current ← first_or not_found found
    remove_found namespace_id user_id current

  -- `RemoveTeamMember`
  unfoldable pub remove_team_member : String → String → Tables e → Check × Tables e
  unfolding remove_team_member_body
  remove_team_member namespace_id user_id =
      transaction (remove_team_member_body namespace_id user_id)

module _ (env : Platform) (dialect : Dialect) {e : Engine} where
  unfoldable pub put_team_member_body : String → String → TeamRole → ℕ → Tx (Tables e) (Unit {0})
  put_team_member_body namespace_id user_id role now = do
    lock_team_memberships dialect namespace_id
    found ← select (users e) (λ u. u.id == user_id && is_active u.status)
    first_or not_found found
    current ← select (team_memberships e) (is_member namespace_id user_id)
    put_found env namespace_id user_id role now current

  -- `PutTeamMember`
  unfoldable pub put_team_member : String → String → TeamRole → ℕ → Tables e → Check × Tables e
  unfolding put_team_member_body
  put_team_member namespace_id user_id role now =
      transaction (put_team_member_body namespace_id user_id role now)
