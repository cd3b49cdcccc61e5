-- ===== src/Identity/OwnersKept.antt =====
-- mod/backend/domain/identity/dao/team_repository.go: no member operation leaves a team that had an
-- owner without one, and each keeps the key of the memberships.
use marketplace_server.Sql.{Engine, any-append, filter_head, All-of_unique}
use marketplace_server.Identity.Store.{Tables, view, team_memberships}
use marketplace_server.Identity.TeamRepository.{
  is_member, create_membership, put_found, put_team_member, remove_found, remove_team_member,
}
use marketplace_server.Base.{
  String, List, any, ◌≡◌, ok, true, arith, filter, ◌∷◌, [], ℕ, Bool-cases, inl, inr, ap, sym, ◌∙◌,
  subst,
}
use marketplace_server.Identity.Model.{TeamMembership}
use marketplace_server.Role.{TeamRole, same_role}
use marketplace_server.Database.Tx.{transaction_keeps}
use marketplace_server.Platform.{Platform}
use marketplace_server.Identity.Lock.{Dialect, create_lem}
use marketplace_server.Identity.TeamOwners.{
  owns, has_owner, UniqueMembers, changed_owner, removed_owner,
}
use marketplace_server.Identity.MemberWrites.{
  change_role_rows, remove_found_rows, put_reads, remove_reads,
}

module _ (env : Platform) {e : Engine} where
  put_found-has_owner :
      (namespace_id user_id ns : String) (role : TeamRole) (now : ℕ) (s s' : Tables e)
      (found : List TeamMembership)
      → UniqueMembers (view e s)
      → filter (is_member namespace_id user_id) (view e s).team_memberships ≡ found
      → has_owner ns (view e s) ≡ true
      → put_found env namespace_id user_id role now found s ≡ ok (tt, s')
      → has_owner ns (view e s') ≡ true
  unfolding put_found create_membership
  put_found-has_owner namespace_id user_id ns role now s s' [] unique q h r =
      let (_, _, after) = create_lem (team_memberships e) _ _ _ s s' r in
      ap (λ v. has_owner ns v) after
      ∙ any-append (owns ns) (view e s).team_memberships _
      ∙ ground arith
  put_found-has_owner namespace_id user_id ns role now s s' (current ∷ rest) unique q h r =
      elim (Bool-cases (same_role current.role role)) [
        | inl x ↦
            (let done : s ≡ s' = ground arith in ap (λ y. has_owner ns (view e y)) (sym done) ∙ h)
        | inr x ↦
            (let (after, others) =
                change_role_rows namespace_id user_id role now s s' current
                  (filter_head (is_member namespace_id user_id) ((view e s).team_memberships)
                    current rest q)
                  (ground arith) in
              ap (any (owns ns)) after
              ∙ changed_owner namespace_id user_id ns role now current _
                  (All-of_unique (is_member namespace_id user_id) ((view e s).team_memberships)
                    current rest (unique.at_most_one namespace_id user_id) q)
                  others h)
      ]

module _ {e : Engine} where
  remove_found-has_owner :
      (namespace_id user_id ns : String) (s s' : Tables e) (current : TeamMembership)
      (rest : List TeamMembership)
      → UniqueMembers (view e s)
      → filter (is_member namespace_id user_id) (view e s).team_memberships ≡ current ∷ rest
      → has_owner ns (view e s) ≡ true
      → remove_found namespace_id user_id current s ≡ ok (tt, s')
      → has_owner ns (view e s') ≡ true
  remove_found-has_owner namespace_id user_id ns s s' current rest unique q h r =
      let (after, others) =
        remove_found_rows namespace_id user_id s s' current
          (filter_head (is_member namespace_id user_id) ((view e s).team_memberships) current rest
            q)
          r in
      ap (any (owns ns)) after
      ∙ removed_owner namespace_id user_id ns current _
          (All-of_unique (is_member namespace_id user_id) ((view e s).team_memberships) current rest
            (unique.at_most_one namespace_id user_id) q)
          others h

module _ (env : Platform) (dialect : Dialect) {e : Engine} where
  -- `PutTeamMember`, whether it adds a member, changes a role or fails, leaves every team that had an
  -- owner with an owner, where the memberships have their key.
  pub put_team_member-has_owner :
      (namespace_id user_id : String) (role : TeamRole) (now : ℕ) (s : Tables e) (ns : String)
      → UniqueMembers (view e s)
      → has_owner ns (view e s) ≡ true
      → has_owner ns (view e (put_team_member env dialect namespace_id user_id role now s).1) ≡ true
  unfolding put_team_member
  put_team_member-has_owner namespace_id user_id role now s ns unique h =
      transaction_keeps (λ t. has_owner ns (view e t) ≡ true) _ s
        (λ s' r.
          let (t, found, v, q, r') = put_reads env dialect namespace_id user_id role now s s' r in
          put_found-has_owner env namespace_id user_id ns role now t s' found
            (subst UniqueMembers (sym v) unique) q (ap (has_owner ns) v ∙ h) r')
        h

module _ (dialect : Dialect) {e : Engine} where
  -- `RemoveTeamMember`, successful or not, leaves every team that had an owner with an owner, where
  -- the memberships have their key.
  pub remove_team_member-has_owner :
      (namespace_id user_id : String) (s : Tables e) (ns : String)
      → UniqueMembers (view e s)
      → has_owner ns (view e s) ≡ true
      → has_owner ns (view e (remove_team_member dialect namespace_id user_id s).1) ≡ true
  unfolding remove_team_member
  remove_team_member-has_owner namespace_id user_id s ns unique h =
      transaction_keeps (λ t. has_owner ns (view e t) ≡ true) _ s
        (λ s' r.
          let (t, current, rest, v, q, r') = remove_reads dialect namespace_id user_id s s' r in
          remove_found-has_owner namespace_id user_id ns t s' current rest
            (subst UniqueMembers (sym v) unique) q (ap (has_owner ns) v ∙ h) r')
        h
