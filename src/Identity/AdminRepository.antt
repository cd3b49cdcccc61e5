-- ===== src/Identity/AdminRepository.antt =====
-- mod/backend/domain/identity/dao/repository.go: the status of a user, and the system administrators.
use marketplace_server.Database.Tx.{Tx, pure, raise, ◌>>=◌, ◌>>◌, transaction}
use marketplace_server.Identity.Lock.{Dialect, lock_system_administrators}
use marketplace_server.Base.{
  String, Bool, ℕ, ◌==◌, if◌then◌else◌, ok, ◌&&◌, length, ltb, leb, some, err,
}
use marketplace_server.Identity.Model.{
  UserGroupMembership, Check, User, UserStatus, admin_system_group_id, is_disabled, is_active,
  same_status, not_found, conflict, database,
}
use marketplace_server.Sql.{Engine, answered, failed}
use marketplace_server.Identity.Store.{
  Tables, group_memberships, users, first_or, same_group_membership,
}
use marketplace_server.Database.Statement.{insert_ignore, select, select_count, update, delete}
use marketplace_server.Identity.Hooks.{user_group_membership_before_write}
use mathlib.Core.Bool.{true, false}
use mathlib.Core.Option.{none}

-- WHERE user_id = ? AND group_id = ?, with the group of the administrators.
abbrev pub is_admin_membership : String → UserGroupMembership → Bool
is_admin_membership id m = m.user_id == id && m.group_id == admin_system_group_id

-- … JOIN users ON users.id = membership.user_id WHERE membership.group_id = ? AND users.status = ?
abbrev pub is_active_admin : UserGroupMembership → User → Bool
is_active_admin m u = u.id == m.user_id && m.group_id == admin_system_group_id && is_active u.status

abbrev pub admin_membership : String → ℕ → UserGroupMembership
admin_membership id now = record {
  user_id = id;
  group_id = admin_system_group_id;
  created_at = now;
}

module _ {e : Engine} where
  -- `Create` with `OnConflict{DoNothing: true}`, behind the hook.
  unfoldable pub grant : Check → UserGroupMembership → Tx (Tables e) (Unit {0})
  grant none m = insert_ignore (group_memberships e) (same_group_membership m) m
  grant (some x) m = raise x

  unfoldable pub count_active_admins : Tx (Tables e) ℕ
  count_active_admins s = elim (e.join is_active_admin s.group_memberships s.users) [
    | answered found ↦ ok (length found, s)
    | failed m ↦ err (database m)
  ]

  -- Before an administrator is disabled: another active one must be left.
  unfoldable pub guard_disabling : Bool → String → Tx (Tables e) (Unit {0})
  guard_disabling true id = do
    active_admins ← count_active_admins
    target_admin ← select_count (group_memberships e) (is_admin_membership id)
    if ltb 0 target_admin && leb active_admins 1 then raise conflict else pure tt
  guard_disabling false id = pure tt

  unfoldable pub change_status : Bool → String → UserStatus → ℕ → User → Tx (Tables e) (Unit {0})
  change_status true id status updated_at user = pure tt
  change_status false id status updated_at user = do
    guard_disabling (is_disabled status) id
    update (users e) (λ u. u.id == id && same_status u.status user.status)
        (λ u. record u { status = status; updated_at = updated_at })
    pure tt

  -- What SetSystemAdmin does with a user it found.
  unfoldable pub change_admin : Bool → ℕ → String → User → Tx (Tables e) (Unit {0})
  change_admin true now id user =
      grant (user_group_membership_before_write (admin_membership id now)) (admin_membership id now)
  change_admin false now id user = do
    active_admins ← count_active_admins
    if is_active user.status && leb active_admins 1 then raise conflict else pure tt
    delete (group_memberships e) (is_admin_membership id)

  -- `IsSystemAdmin`
  unfoldable pub is_system_admin : String → Tx (Tables e) Bool
  is_system_admin user_id = do
    count ← select_count (group_memberships e) (is_admin_membership user_id)
    pure (ltb 0 count)

module _ (dialect : Dialect) {e : Engine} where
  unfoldable pub set_user_status_body : String → UserStatus → ℕ → Tx (Tables e) (Unit {0})
  set_user_status_body id status updated_at = do
    lock_system_administrators dialect id
    found ← select (users e) (λ u. u.id == id)
    user ← first_or not_found found
    change_status (same_status user.status status) id status updated_at user

  -- `SetUserStatus`
  unfoldable pub set_user_status : String → UserStatus → ℕ → Tables e → Check × Tables e
  unfolding set_user_status_body
  set_user_status id status updated_at = transaction (set_user_status_body id status updated_at)

  unfoldable pub set_system_admin_body : String → Bool → ℕ → Tx (Tables e) (Unit {0})
  set_system_admin_body id enabled now = do
    lock_system_administrators dialect id
    found ← select (users e) (λ u. u.id == id)
    user ← first_or not_found found
    change_admin enabled now id user

  -- `SetSystemAdmin`; `now` is the time that gorm gives the membership it creates.
  unfoldable pub set_system_admin : String → Bool → ℕ → Tables e → Check × Tables e
  unfolding set_system_admin_body
  set_system_admin id enabled now = transaction (set_system_admin_body id enabled now)
