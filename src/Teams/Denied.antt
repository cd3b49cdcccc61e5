-- ===== src/Teams/Denied.antt =====
-- What a principal who does not manage a team can do with it: nothing.
use marketplace_server.Teams.Requests.{
  perform, is_managed_by, is_refused, TeamRequest, put, remove, offer,
}
use marketplace_server.Teams.Service.{resolve, update}
use marketplace_server.Teams.Step.{◌>>=◌}
use marketplace_server.Teams.Members.{put_member, remove_member}
use marketplace_server.Teams.Invitations.{invite, revoke, reissue, managed_invitation}
use marketplace_server.Teams.Access.{can_manage_role}
use marketplace_server.Platform.{Platform}
use marketplace_server.Teams.Store.{TeamStore}
use marketplace_server.Auth.Principal.{Principal}
use marketplace_server.Base.{String, ◌≡◌, false, true, arith}

module _ (env : Platform) {S : Type 0} (repository : TeamStore S) where
  pub resolve-state :
      (p : Principal) (slug : String) (s : S) → (resolve env repository p slug s).1 ≡ s
  unfolding resolve ◌>>=◌
  resolve-state p slug s = ground arith

  -- A request to change a team is refused, and leaves the store and the log as they were, when the
  -- principal is neither a system administrator nor an owner or an admin of the team, as `resolve`
  -- reads them.
  pub perform_denied :
      (p : Principal) (slug : String) (request : TeamRequest) (s : S)
      → is_managed_by env repository p slug s ≡ false
      → (is_refused (perform env repository p slug request s).0 ≡ true)
        × ((perform env repository p slug request s).1 ≡ s)
  unfolding perform update put_member remove_member invite revoke reissue managed_invitation
      can_manage_role ◌>>=◌
  perform_denied p slug (TeamRequest.rename name now) s h = ground (arith, resolve-state p slug s)
  perform_denied p slug (put user_id role now) s h = ground (arith, resolve-state p slug s)
  perform_denied p slug (remove user_id) s h = ground (arith, resolve-state p slug s)
  perform_denied p slug (offer username role now id) s h = ground (arith, resolve-state p slug s)
  perform_denied p slug (TeamRequest.withdraw id now) s h = ground (arith, resolve-state p slug s)
  perform_denied p slug (TeamRequest.renew id now new_id) s h =
      ground (arith, resolve-state p slug s)
