-- ===== src/Identity/AdminEffects.antt =====
-- mod/backend/domain/identity/dao/repository.go: what granting and revoking an administrator do.
use marketplace_server.Identity.AdminRepository.{
  set_system_admin, set_system_admin_body, change_admin, grant, is_admin_membership,
  admin_membership,
}
use marketplace_server.Database.Tx.{>>=-eq-ok, transaction_done}
use marketplace_server.Base.{
  Bool, List, String, any, ℕ, ◌≡◌, filter, none, true, if◌then◌else◌, not, ok, ap, false, ◌++◌, ◌∷◌,
  [], arith, refl, ◌∙◌, eq_iff,
}
use marketplace_server.Sql.{Engine, any-append}
use marketplace_server.Identity.Lock.{Dialect}
use marketplace_server.Identity.Hooks.{user_group_membership_before_write}
use marketplace_server.Identity.Model.{User}
use marketplace_server.Identity.Store.{Tables, view, group_memberships}
use marketplace_server.Database.Statement.{insert_ignore_lem, delete_lem}

any-filter-not :
    {A : Type 0} (p : A → Bool) (l : List A) → any p (filter (λ a. not (p a)) l) ≡ false
any-filter-not p [] = refl
any-filter-not p (a ∷ l) = ground (arith, any-filter-not p l)

-- A row that is added unless it is there is there.
any-added :
    {A : Type 0} (p : A → Bool) (l : List A) (a : A)
    → p a ≡ true
    → any p (if any p l then l else l ++ a ∷ []) ≡ true
any-added p l a h = ground (arith, any-append p l (a ∷ []))

module _ {e : Engine} where
  change_admin-effect :
      (enabled : Bool) (now : ℕ) (id : String) (user : User) (s s' : Tables e)
      → change_admin enabled now id user s ≡ ok (tt, s')
      → any (is_admin_membership id) (view e s').group_memberships ≡ enabled
  unfolding change_admin grant user_group_membership_before_write
  change_admin-effect true now id user s s' h =
      ap (λ r. any (is_admin_membership id) r.group_memberships)
        (insert_ignore_lem (group_memberships e) _ (admin_membership id now) s s' h)
      ∙ any-added (is_admin_membership id) ((view e s).group_memberships) (admin_membership id now)
          (ground (arith, eq_iff id id))
  change_admin-effect false now id user s s' h =
      let (n, t, q, h1) = >>=-eq-ok _ _ s s' tt h in
      let (_, u, q1, h2) = >>=-eq-ok _ _ t s' tt h1 in
      ap (λ r. any (is_admin_membership id) r.group_memberships)
        (delete_lem (group_memberships e) (is_admin_membership id) u s' h2)
      ∙ any-filter-not (is_admin_membership id) ((view e u).group_memberships)

module _ (dialect : Dialect) {e : Engine} where
  -- Where `SetSystemAdmin` answers no error, the user has a membership in the group of administrators
  -- after it if it was to grant one, and none if it was to revoke it.
  pub set_system_admin-effect :
      (id : String) (enabled : Bool) (now : ℕ) (s : Tables e)
      → (set_system_admin dialect id enabled now s).0 ≡ none
      → any
          (is_admin_membership id)
          (view e (set_system_admin dialect id enabled now s).1).group_memberships
        ≡ enabled
  unfolding set_system_admin set_system_admin_body
  set_system_admin-effect id enabled now s h =
      let body = transaction_done _ s h in
      let (_, t1, q1, h1) = >>=-eq-ok _ _ s _ tt body in
      let (found, t2, q2, h2) = >>=-eq-ok _ _ t1 _ tt h1 in
      let (user, t3, q3, h3) = >>=-eq-ok _ _ t2 _ tt h2 in
      change_admin-effect enabled now id user t3 _ h3
