-- ===== src/Teams/Owners.antt =====
-- Only an owner of a team, or a system administrator, makes an owner or reaches one.
use marketplace_server.Teams.Requests.{perform, is_refused, TeamRequest, put, remove, offer}
use marketplace_server.Teams.Service.{resolve, update}
use marketplace_server.Teams.Denied.{resolve-state}
use marketplace_server.Teams.Step.{◌>>=◌}
use marketplace_server.Teams.Members.{put_member, remove_member}
use marketplace_server.Teams.Invitations.{invite, revoke, reissue, managed_invitation}
use marketplace_server.Teams.Access.{can_manage_role}
use marketplace_server.Teams.Views.{TeamRecord, TeamInvitationRecord}
use marketplace_server.Platform.{Platform}
use marketplace_server.Teams.Store.{TeamStore}
use marketplace_server.Base.{String, Bool, Result, ◌≡◌, false, ok, err, true, ◌||◌, arith}
use marketplace_server.Auth.Principal.{Principal}
use marketplace_server.Identity.Model.{StoreError}
use marketplace_server.Role.{TeamRole, is_owner}

abbrev pub reads_owner : Result StoreError TeamRole → Bool
reads_owner (ok role) = is_owner role
reads_owner (err _) = false

abbrev pub offers_owner : Result StoreError TeamInvitationRecord → Bool
offers_owner (ok invitation) = is_owner invitation.role
offers_owner (err _) = false

module _ (env : Platform) {S : Type 0} (repository : TeamStore S) where
  -- The request gives the role of an owner, or is about a member or an invitation with that role.
  abbrev pub is_about_owner : String → TeamRequest → S → Bool
  is_about_owner team_id (TeamRequest.rename name now) s = false
  is_about_owner team_id (put user_id role now) s =
      is_owner role || reads_owner (repository.team_role team_id user_id s)
  is_about_owner team_id (remove user_id) s = reads_owner (repository.team_role team_id user_id s)
  is_about_owner team_id (offer username role now id) s = is_owner role
  is_about_owner team_id (TeamRequest.withdraw id now) s =
      offers_owner (repository.find_invitation team_id id s)
  is_about_owner team_id (TeamRequest.renew id now new_id) s =
      offers_owner (repository.find_invitation team_id id s)

  -- Where `resolve` finds a team for a principal who is no system administrator and no owner of it,
  -- a request that gives the role of an owner, or is about a member or an invitation with that role,
  -- is refused, and leaves the store and the log as they were.
  pub perform_owner :
      (p : Principal) (slug : String) (request : TeamRequest) (s : S) (r : TeamRecord)
      → (resolve env repository p slug s).0 ≡ ok (r, false)
      → is_owner r.current_user_role ≡ false
      → is_about_owner r.id request s ≡ true
      → (is_refused (perform env repository p slug request s).0 ≡ true)
        × ((perform env repository p slug request s).1 ≡ s)
  unfolding perform update put_member remove_member invite revoke reissue managed_invitation
      can_manage_role ◌>>=◌
  perform_owner p slug (TeamRequest.rename name now) s r h k i = cc
  perform_owner p slug (put user_id role now) s r h k i =
      ground (arith, resolve-state env repository p slug s)
  perform_owner p slug (remove user_id) s r h k i =
      ground (arith, resolve-state env repository p slug s)
  perform_owner p slug (offer username role now id) s r h k i =
      ground (arith, resolve-state env repository p slug s)
  perform_owner p slug (TeamRequest.withdraw id now) s r h k i =
      ground (arith, resolve-state env repository p slug s)
  perform_owner p slug (TeamRequest.renew id now new_id) s r h k i =
      ground (arith, resolve-state env repository p slug s)
