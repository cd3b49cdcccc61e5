-- ===== src/Identity/MemberWrites.antt =====
-- mod/backend/domain/identity/dao/team_repository.go: what the member operations write.
use marketplace_server.Sql.{Engine, map_where}
use marketplace_server.Identity.Store.{Tables, view, users, team_memberships}
use marketplace_server.Identity.TeamRepository.{
  is_member, is_other_owner, put_found, remove_found, put_team_member_body, remove_team_member_body,
}
use marketplace_server.Base.{
  String, List, any, ◌≡◌, ok, true, arith, filter, ◌&&◌, ◌∷◌, not, ℕ, ap, eq_iff, sym, ◌∙◌,
}
use marketplace_server.Identity.Model.{TeamMembership, not_found}
use marketplace_server.Role.{is_owner, TeamRole}
use marketplace_server.Database.Tx.{>>=-eq-ok}
use marketplace_server.Database.Statement.{update_lem, delete, update, delete_lem, select_lem}
use marketplace_server.Platform.{Platform}
use marketplace_server.Identity.Lock.{
  Dialect, lock_team_memberships-view, first_or_found, first_or_lem,
}
use marketplace_server.Identity.TeamRepository.{change_role}
use marketplace_server.Identity.TeamOwners.{guard_owner_lem}

module _ {e : Engine} where
  -- The rows after an update of the membership that was found.
  written_rows :
      (namespace_id user_id : String) (f : TeamMembership → TeamMembership) (s s' : Tables e)
      (current : TeamMembership) (n : ℕ)
      → is_member namespace_id user_id current ≡ true
      → update (team_memberships e) (is_member current.namespace_id current.user_id) f s
        ≡ ok (n, s')
      → (view e s').team_memberships
        ≡ map_where (is_member namespace_id user_id) f (view e s).team_memberships
  written_rows namespace_id user_id f s s' current n key h =
      let e1 : current.namespace_id ≡ namespace_id = (eq_iff _ _).0 (ground arith) in
      let e2 : current.user_id ≡ user_id = (eq_iff _ _).0 (ground arith) in
      ap (λ r. r.team_memberships) (update_lem (team_memberships e) _ _ s s' n h).0
      ∙ ap (λ x. map_where (is_member x current.user_id) f (view e s).team_memberships) e1
      ∙ ap (λ x. map_where (is_member namespace_id x) f (view e s).team_memberships) e2

  deleted_rows :
      (namespace_id user_id : String) (s s' : Tables e) (current : TeamMembership)
      → is_member namespace_id user_id current ≡ true
      → delete (team_memberships e) (is_member current.namespace_id current.user_id) s ≡ ok (tt, s')
      → (view e s').team_memberships
        ≡ filter (λ m. not (is_member namespace_id user_id m)) (view e s).team_memberships
  deleted_rows namespace_id user_id s s' current key h =
      let e1 : current.namespace_id ≡ namespace_id = (eq_iff _ _).0 (ground arith) in
      let e2 : current.user_id ≡ user_id = (eq_iff _ _).0 (ground arith) in
      ap (λ r. r.team_memberships) (delete_lem (team_memberships e) _ s s' h)
      ∙ ap (λ x. filter (λ m. not (is_member x current.user_id m)) (view e s).team_memberships) e1
      ∙ ap (λ x. filter (λ m. not (is_member namespace_id x m)) (view e s).team_memberships) e2

  pub change_role_rows :
      (namespace_id user_id : String) (role : TeamRole) (now : ℕ) (s s' : Tables e)
      (current : TeamMembership)
      → is_member namespace_id user_id current ≡ true
      → change_role namespace_id user_id role now current s ≡ ok (tt, s')
      → ((view e s').team_memberships
          ≡ map_where
              (is_member namespace_id user_id)
              (λ m. record m { role = role; updated_at = now })
              (view e s).team_memberships)
        × ((is_owner current.role && not (is_owner role)) ≡ true
            → any (is_other_owner namespace_id user_id) (view e s).team_memberships ≡ true)
  unfolding change_role
  change_role_rows namespace_id user_id role now s s' current key r =
      let (_, t, guarded, r1) = >>=-eq-ok _ _ s s' tt r in
      let (n, u, written, r2) = >>=-eq-ok _ _ t s' tt r1 in
      let (still, others) = guard_owner_lem _ namespace_id user_id s t guarded in
      let done : u ≡ s' = cc in
      (
        ap (λ x. (view e x).team_memberships) (sym done)
            ∙ written_rows namespace_id user_id _ t u current n key written
            ∙ ap
                (λ x.
                  map_where (is_member namespace_id user_id)
                    (λ m. record m { role = role; updated_at = now }) (view e x).team_memberships)
                still,
        others,
      )

  pub remove_found_rows :
      (namespace_id user_id : String) (s s' : Tables e) (current : TeamMembership)
      → is_member namespace_id user_id current ≡ true
      → remove_found namespace_id user_id current s ≡ ok (tt, s')
      → ((view e s').team_memberships
          ≡ filter (λ m. not (is_member namespace_id user_id m)) (view e s).team_memberships)
        × (is_owner current.role ≡ true
            → any (is_other_owner namespace_id user_id) (view e s).team_memberships ≡ true)
  unfolding remove_found
  remove_found_rows namespace_id user_id s s' current key r =
      let (_, t, guarded, r1) = >>=-eq-ok _ _ s s' tt r in
      let (still, others) = guard_owner_lem _ namespace_id user_id s t guarded in
      (
        deleted_rows namespace_id user_id t s' current key r1
            ∙ ap
                (λ x.
                  filter (λ m. not (is_member namespace_id user_id m)) (view e x).team_memberships)
                still,
        others,
      )

module _ (env : Platform) (dialect : Dialect) {e : Engine} where
  -- `PutTeamMember` up to the write: it has read the membership and changed nothing.
  pub put_reads :
      (namespace_id user_id : String) (role : TeamRole) (now : ℕ) (s s' : Tables e)
      → put_team_member_body env dialect namespace_id user_id role now s ≡ ok (tt, s')
      → (t : Tables e) × (found : List TeamMembership) × (view e t ≡ view e s)
        × (filter (is_member namespace_id user_id) (view e t).team_memberships ≡ found)
        × (put_found env namespace_id user_id role now found t ≡ ok (tt, s'))
  unfolding put_team_member_body
  put_reads namespace_id user_id role now s s' r =
      let (_, s1, locked, r1) = >>=-eq-ok _ _ s s' tt r in
      let (us, s2, found, r2) = >>=-eq-ok _ _ s1 s' tt r1 in
      let (_, s3, first, r3) = >>=-eq-ok _ _ s2 s' tt r2 in
      let (current, s4, looked, r4) = >>=-eq-ok _ _ s3 s' tt r3 in
      let v1 = lock_team_memberships-view dialect namespace_id s s1 locked in
      let (v2, _) = select_lem (users e) _ s1 s2 us found in
      let v3 = first_or_lem not_found us s2 s3 _ first in
      let (v4, is) = select_lem (team_memberships e) _ s3 s4 current looked in
      (
        s4,
        current,
        ap (view e) (v4 ∙ v3 ∙ v2) ∙ v1,
        ap (λ x. filter (is_member namespace_id user_id) (view e x).team_memberships) v4 ∙ sym is,
        r4,
      )

module _ (dialect : Dialect) {e : Engine} where
  -- `RemoveTeamMember` up to the write: it has found the membership and changed nothing.
  pub remove_reads :
      (namespace_id user_id : String) (s s' : Tables e)
      → remove_team_member_body dialect namespace_id user_id s ≡ ok (tt, s')
      → (t : Tables e) × (current : TeamMembership) × (rest : List TeamMembership) × (view e t
          ≡ view e s)
        × (filter (is_member namespace_id user_id) (view e t).team_memberships ≡ current ∷ rest)
        × (remove_found namespace_id user_id current t ≡ ok (tt, s'))
  unfolding remove_team_member_body
  remove_reads namespace_id user_id s s' r =
      let (_, s1, locked, r1) = >>=-eq-ok _ _ s s' tt r in
      let (found, s2, looked, r2) = >>=-eq-ok _ _ s1 s' tt r1 in
      let (current, s3, first, r3) = >>=-eq-ok _ _ s2 s' tt r2 in
      let v1 = lock_team_memberships-view dialect namespace_id s s1 locked in
      let (v2, is) = select_lem (team_memberships e) _ s1 s2 found looked in
      let (v3, (rest, head)) = first_or_found not_found found s2 s3 current first in
      (
        s3,
        current,
        rest,
        ap (view e) (v3 ∙ v2) ∙ v1,
        ap (λ x. filter (is_member namespace_id user_id) (view e x).team_memberships) (v3 ∙ v2)
            ∙ sym is
            ∙ head,
        r3,
      )
