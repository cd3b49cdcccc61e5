-- ===== src/Identity/MemberKey.antt =====
-- mod/backend/domain/identity/dao/team_repository.go: the member operations keep the key of the
-- memberships, so what they promise holds after any number of them.
use marketplace_server.Sql.{Engine, count, filter_head, count_of_any-false, count-append}
use marketplace_server.Identity.Store.{Tables, view, team_memberships, same_team_membership}
use marketplace_server.Identity.TeamRepository.{
  is_member, create_membership, put_found, put_team_member, remove_found, remove_team_member,
}
use marketplace_server.Base.{
  String, List, any, ◌≡◌, ◌≤◌, ok, true, arith, filter, ◌∷◌, not, [], ℕ, Bool-cases, inl, inr,
  eq_iff, sym, subst, ◌++◌, refl,
}
use marketplace_server.Identity.Model.{TeamMembership}
use marketplace_server.Role.{TeamRole, same_role}
use marketplace_server.Database.Tx.{transaction_keeps}
use mathlib.Core.Bool.{false}
use marketplace_server.Platform.{Platform}
use marketplace_server.Identity.Lock.{Dialect, create_lem}
use marketplace_server.Identity.TeamOwners.{has_owner, UniqueMembers}
use marketplace_server.Identity.MemberWrites.{
  change_role_rows, remove_found_rows, put_reads, remove_reads,
}
use marketplace_server.Sql.{count-map_where, count-filter-le}
use marketplace_server.Identity.OwnersKept.{put_team_member-has_owner, remove_team_member-has_owner}

-- A row that clashed with none may be added to a keyed table.
key-append :
    (m : TeamMembership) (l : List TeamMembership) (a b : String)
    → any (same_team_membership m) l ≡ false
    → count (is_member a b) l ≤ 1
    → count (is_member a b) (l ++ m ∷ []) ≤ 1
key-append m l a b fresh h = elim (Bool-cases (is_member a b m)) [
  | inl k ↦
      (let e1 : m.namespace_id ≡ a = (eq_iff _ _).0 (ground arith) in
        let e2 : m.user_id ≡ b = (eq_iff _ _).0 (ground arith) in
        let none_left : count (is_member a b) l ≡ 0 =
          subst (λ x. count (is_member x b) l ≡ 0) e1
            (subst (λ x. count (is_member m.namespace_id x) l ≡ 0) e2
              (count_of_any-false _ (same_team_membership m) l (λ n t. t) fresh)) in
        ground (arith, count-append (is_member a b) l (m ∷ []), none_left))
  | inr k ↦ ground (arith, count-append (is_member a b) l (m ∷ []))
]

module _ (env : Platform) {e : Engine} where
  put_found-UniqueMembers :
      (namespace_id user_id : String) (role : TeamRole) (now : ℕ) (s s' : Tables e)
      (found : List TeamMembership)
      → UniqueMembers (view e s)
      → filter (is_member namespace_id user_id) (view e s).team_memberships ≡ found
      → put_found env namespace_id user_id role now found s ≡ ok (tt, s')
      → UniqueMembers (view e s')
  unfolding put_found create_membership
  put_found-UniqueMembers namespace_id user_id role now s s' [] unique q r =
      let (_, fresh, after) = create_lem (team_memberships e) _ _ _ s s' r in
      subst UniqueMembers (sym after) (record {
        at_most_one =
            λ a b. key-append _ ((view e s).team_memberships) a b fresh (unique.at_most_one a b);
      })
  put_found-UniqueMembers namespace_id user_id role now s s' (current ∷ rest) unique q r =
      elim (Bool-cases (same_role current.role role)) [
        | inl x ↦
            (let done : s ≡ s' = ground arith in subst (λ y. UniqueMembers (view e y)) done unique)
        | inr x ↦
            (let (after, _) =
                change_role_rows namespace_id user_id role now s s' current
                  (filter_head (is_member namespace_id user_id) ((view e s).team_memberships)
                    current rest q)
                  (ground arith) in
              record {
                at_most_one = λ a b. rw after (
                    rw
                      (count-map_where (is_member a b) (is_member namespace_id user_id)
                        (λ m. record m { role = role; updated_at = now })
                        ((view e s).team_memberships) (λ m k. refl))
                      (unique.at_most_one a b));
              })
      ]

module _ {e : Engine} where
  remove_found-UniqueMembers :
      (namespace_id user_id : String) (s s' : Tables e) (current : TeamMembership)
      (rest : List TeamMembership)
      → UniqueMembers (view e s)
      → filter (is_member namespace_id user_id) (view e s).team_memberships ≡ current ∷ rest
      → remove_found namespace_id user_id current s ≡ ok (tt, s')
      → UniqueMembers (view e s')
  remove_found-UniqueMembers namespace_id user_id s s' current rest unique q r =
      let (after, _) =
        remove_found_rows namespace_id user_id s s' current
          (filter_head (is_member namespace_id user_id) ((view e s).team_memberships) current rest
            q)
          r in
      record {
        at_most_one = λ a b. rw after (
            omega (
              arith,
              count-filter-le (is_member a b) (λ m. not (is_member namespace_id user_id m))
                  ((view e s).team_memberships),
              unique.at_most_one a b,
            ));
      }

-- What a client of the repository may ask for, in any order.
pub data MemberCommand : Type 0 where
  put : String → String → TeamRole → ℕ → MemberCommand
  remove : String → String → MemberCommand

module _ (env : Platform) (dialect : Dialect) {e : Engine} where
  unfoldable pub run_member_command : MemberCommand → Tables e → Tables e
  run_member_command (put namespace_id user_id role now) s =
      (put_team_member env dialect namespace_id user_id role now s).1
  run_member_command (remove namespace_id user_id) s =
      (remove_team_member dialect namespace_id user_id s).1

  unfoldable pub run_member_commands : List MemberCommand → Tables e → Tables e
  run_member_commands [] s = s
  run_member_commands (c ∷ rest) s = run_member_commands rest (run_member_command c s)

  -- One member command keeps the key of the memberships.
  command-UniqueMembers :
      (c : MemberCommand) (s : Tables e)
      → UniqueMembers (view e s)
      → UniqueMembers (view e (run_member_command c s))
  unfolding run_member_command put_team_member remove_team_member
  command-UniqueMembers (put namespace_id user_id role now) s unique =
      transaction_keeps (λ t. UniqueMembers (view e t)) _ s
        (λ s' r.
          let (t, found, v, q, r') = put_reads env dialect namespace_id user_id role now s s' r in
          put_found-UniqueMembers env namespace_id user_id role now t s' found
            (subst UniqueMembers (sym v) unique) q r')
        unique
  command-UniqueMembers (remove namespace_id user_id) s unique =
      transaction_keeps (λ t. UniqueMembers (view e t)) _ s
        (λ s' r.
          let (t, current, rest, v, q, r') = remove_reads dialect namespace_id user_id s s' r in
          remove_found-UniqueMembers namespace_id user_id t s' current rest
            (subst UniqueMembers (sym v) unique) q r')
        unique

  command-has_owner :
      (c : MemberCommand) (s : Tables e) (ns : String)
      → UniqueMembers (view e s)
      → has_owner ns (view e s) ≡ true
      → has_owner ns (view e (run_member_command c s)) ≡ true
  unfolding run_member_command
  command-has_owner (put namespace_id user_id role now) s ns unique h =
      put_team_member-has_owner env dialect namespace_id user_id role now s ns unique h
  command-has_owner (remove namespace_id user_id) s ns unique h =
      remove_team_member-has_owner dialect namespace_id user_id s ns unique h

  -- However many members are put and removed, and whichever of these calls fail, a team that had an
  -- owner has one, and every user has at most one membership in a team, if that was so before.
  pub member_commands-has_owner :
      (cs : List MemberCommand) (s : Tables e) (ns : String)
      → UniqueMembers (view e s)
      → has_owner ns (view e s) ≡ true
      → (has_owner ns (view e (run_member_commands cs s)) ≡ true)
        × UniqueMembers (view e (run_member_commands cs s))
  unfolding run_member_commands
  member_commands-has_owner [] s ns unique h = (h, unique)
  member_commands-has_owner (c ∷ rest) s ns unique h =
      member_commands-has_owner rest (run_member_command c s) ns (command-UniqueMembers c s unique)
        (command-has_owner c s ns unique h)
