-- ===== src/Teams/Shown.antt =====
-- The permissions that team_service.go shows are the ones that it enforces.
use marketplace_server.Teams.Access.{permissions, can_manage_role, team_from_record}
use marketplace_server.Teams.Service.{resolve, update, get}
use marketplace_server.Teams.Members.{put_member, remove_member, list_members}
use marketplace_server.Teams.Denied.{resolve-state}
use marketplace_server.Teams.Views.{TeamRecord, Team, TeamPermissions}
use marketplace_server.Teams.Store.{TeamStore}
use marketplace_server.Teams.Step.{◌>>=◌}
use marketplace_server.Platform.{Platform}
use marketplace_server.Auth.Principal.{Principal}
use marketplace_server.Identity.Model.{StoreError, is_team_role}
use marketplace_server.Role.{TeamRole, is_owner, is_admin, is_no_role}
use marketplace_server.Base.{
  Bool, ◌≡◌, true, not, arith, ok, err, String, ℕ, ◌&&◌, ap, ◌∙◌, refl, Result-cases, inl, inr, sym,
  if◌then◌else◌,
}
use marketplace_server.Identity.Text.{trim_space}
use marketplace_server.Teams.Forbidden.{
  is_forbidden, seq-IsAllowed, answered-is_forbidden, refused-is_forbidden, invalid-IsAllowed,
  store-IsAllowed, mapped-IsAllowed, read-IsAllowed, listed-IsAllowed, logged-IsAllowed,
}

module _ (env : Platform) {S : Type 0} (repository : TeamStore S) where
  update-is_forbidden :
      (p : Principal) (slug name : String) (now : ℕ) (s : S) (r : TeamRecord) (system : Bool)
      → (resolve env repository p slug s).0 ≡ ok (r, system)
      → is_forbidden (update env repository p slug name now s).0
        ≡ (not system && not (is_owner r.current_user_role) && not (is_admin r.current_user_role))
  unfolding update
  update-is_forbidden p slug name now s r system h =
      answered-is_forbidden (resolve env repository p slug) _ s (r, system) _ h
        (refused-is_forbidden _ _ _ (
          seq-IsAllowed _ _ (invalid-IsAllowed _)
            (λ _.
              seq-IsAllowed _ _
                (store-IsAllowed (repository.update_team_display_name r.id (trim_space name) now))
                (λ _. seq-IsAllowed _ _ (logged-IsAllowed repository p _ _ _ _ _) (λ _ t. refl)))
            _))

  remove_member-is_forbidden :
      (p : Principal) (slug user_id : String) (s : S) (r : TeamRecord) (system : Bool)
      (role : TeamRole)
      → (resolve env repository p slug s).0 ≡ ok (r, system)
      → repository.team_role r.id user_id s ≡ ok role
      → is_forbidden (remove_member env repository p slug user_id s).0
        ≡ not (can_manage_role r.current_user_role system role)
  unfolding remove_member
  remove_member-is_forbidden p slug user_id s r system role h k =
      answered-is_forbidden (resolve env repository p slug) _ s (r, system) _ h
        (answered-is_forbidden _ _ _ role _ (rw (resolve-state env repository p slug s, k) refl) (
          refused-is_forbidden _ _ _ (
            seq-IsAllowed _ _ (mapped-IsAllowed (repository.remove_team_member r.id user_id))
              (λ _. logged-IsAllowed repository p _ _ _ _ _) _)))

  put_member-is_forbidden :
      (p : Principal) (slug user_id : String) (now : ℕ) (s : S) (r : TeamRecord) (system : Bool)
      (role : TeamRole) (x : StoreError)
      → (resolve env repository p slug s).0 ≡ ok (r, system)
      → is_team_role role ≡ true
      → repository.team_role r.id user_id s ≡ err x
      → is_forbidden (put_member env repository p slug user_id role now s).0
        ≡ not (can_manage_role r.current_user_role system role)
  unfolding put_member
  put_member-is_forbidden p slug user_id now s r system role x h j k =
      answered-is_forbidden (resolve env repository p slug) _ s (r, system) _ h
        (answered-is_forbidden _ _ _ tt _ (rw j refl) (
          refused-is_forbidden _ _ _ (
            answered-is_forbidden _ _ _ (err x) _
              (rw (j, resolve-state env repository p slug s, k) refl)
              (refused-is_forbidden _ _ _ (
                seq-IsAllowed _ _
                  (mapped-IsAllowed (repository.put_team_member r.id user_id role now))
                  (λ _.
                    seq-IsAllowed _ _ (read-IsAllowed (repository.find_user_by_id user_id)) (λ u.
                      seq-IsAllowed _ _ (logged-IsAllowed repository p _ _ _ _ _) (λ _ t. refl)))
                  _)))))

  list_members-is_forbidden :
      (p : Principal) (slug : String) (page size : ℕ) (s : S) (r : TeamRecord) (system : Bool)
      → (resolve env repository p slug s).0 ≡ ok (r, system)
      → is_forbidden (list_members env repository p slug page size s).0
        ≡ (is_no_role r.current_user_role && not system)
  unfolding list_members
  list_members-is_forbidden p slug page size s r system h =
      answered-is_forbidden (resolve env repository p slug) _ s (r, system) _ h
        (refused-is_forbidden _ _ _ (
          seq-IsAllowed _ _ (invalid-IsAllowed _)
            (λ _.
              seq-IsAllowed _ _ (listed-IsAllowed (repository.list_team_members r.id page size))
                (λ _ t. refl))
            _))

  -- What `Get` answers.
  get-eq-ok :
      (p : Principal) (slug : String) (s : S) (team : Team)
      → (get env repository p slug s).0 ≡ ok team
      → (r : TeamRecord) × (system : Bool) × ((resolve env repository p slug s).0 ≡ ok (r, system))
        × (team ≡ team_from_record r system)
  unfolding get ◌>>=◌
  get-eq-ok p slug s team h = elim (Result-cases (resolve env repository p slug s).0) [
    | inl ((r, system), q) ↦ (r, system, q, ground arith)
    | inr (x, q) ↦ ground arith
  ]

-- What the permissions say of a member, or of a new one, with the role.
abbrev pub manages : TeamPermissions → TeamRole → Bool
manages shown role = if is_owner role then shown.manage_owners else shown.manage_members

manages-permissions :
    (actor : TeamRole) (system : Bool) (role : TeamRole)
    → manages (permissions actor system) role ≡ not (not (can_manage_role actor system role))
unfolding permissions can_manage_role
manages-permissions actor system role = ground arith

shown-permissions :
    (actor : TeamRole) (system : Bool)
    → ((permissions actor system).read_members ≡ not (is_no_role actor && not system))
      × ((permissions actor system).update_settings
          ≡ not (not system && not (is_owner actor) && not (is_admin actor)))
unfolding permissions
shown-permissions actor system = ground arith

module _ (env : Platform) {S : Type 0} (repository : TeamStore S) where
  -- The permissions that `Get` shows to a principal are those that the requests enforce, where the
  -- state is the same: the members are listed exactly where `readMembers` is shown, the team is
  -- renamed exactly where `updateSettings` is shown, and a member with a role is removed, and one who
  -- has no role is given a role of a team, exactly where `manageOwners`, for the role of an owner, or
  -- `manageMembers`, for another role, is shown. Where a permission is not shown, the request is
  -- forbidden; where it is shown, the request may still fail, but not as forbidden.
  pub permissions-is_forbidden :
      (p : Principal) (slug name member stranger : String) (now page size : ℕ) (s : S) (team : Team)
      (role new_role : TeamRole) (x : StoreError)
      → (get env repository p slug s).0 ≡ ok team
      → repository.team_role team.id member s ≡ ok role
      → is_team_role new_role ≡ true
      → repository.team_role team.id stranger s ≡ err x
      → (team.permissions.read_members
          ≡ not (is_forbidden (list_members env repository p slug page size s).0))
        × (team.permissions.update_settings
            ≡ not (is_forbidden (update env repository p slug name now s).0))
        × (manages team.permissions role
            ≡ not (is_forbidden (remove_member env repository p slug member s).0))
        × (manages team.permissions new_role
            ≡ not (is_forbidden (put_member env repository p slug stranger new_role now s).0))
  unfolding team_from_record
  permissions-is_forbidden p slug name member stranger now page size s team role new_role x h k j
        l =
      let (r, system, found, e) = get-eq-ok env repository p slug s team h in
      let read = list_members-is_forbidden env repository p slug page size s r system found in
      let renamed = update-is_forbidden env repository p slug name now s r system found in
      let removed =
        remove_member-is_forbidden env repository p slug member s r system role found
          (ap (λ t. repository.team_role t.id member s) (sym e) ∙ k) in
      let added =
        put_member-is_forbidden env repository p slug stranger now s r system new_role x found j
          (ap (λ t. repository.team_role t.id stranger s) (sym e) ∙ l) in
      let (shown_read, shown_update) = shown-permissions r.current_user_role system in
      (
        ap (λ t. t.permissions.read_members) e ∙ shown_read ∙ ap not (sym read),
        ap (λ t. t.permissions.update_settings) e ∙ shown_update ∙ ap not (sym renamed),
        ap (λ t. manages t.permissions role) e
            ∙ manages-permissions r.current_user_role system role
            ∙ ap not (sym removed),
        ap (λ t. manages t.permissions new_role) e
            ∙ manages-permissions r.current_user_role system new_role
            ∙ ap not (sym added),
      )
