-- ===== src/Teams/Invitations.antt =====
-- team_service.go: the invitations of a team, and a user's own.
use marketplace_server.Teams.Service.{resolve, log_mutation}
use marketplace_server.Teams.Access.{
  can_manage_role, invitation_item, is_team_principal, valid_page, team_from_record,
}
use marketplace_server.Teams.Views.{
  TeamInvitationRecord, InvitationView, Page, pending, TeamRecord, Team,
}
use marketplace_server.Teams.Step.{
  Step, pure, read, look, write, write_value, refuse_if, map_team_error, store, ◌>>=◌, ◌>>◌,
  team_forbidden, invalid_team_input, team_not_found, team_conflict,
}
use marketplace_server.Teams.Store.{TeamStore}
use marketplace_server.Base.{
  List, String, ℕ, Bool, Result, map, none, Option, false, not, ◌+◌, ok, some, err, if◌then◌else◌,
  ◌&&◌, ◌==◌, ◌∷◌, [],
}
use marketplace_server.Identity.Model.{
  TeamInvitation, User, is_team_role, StoreError, UserStatus, is_active, not_found,
}
use marketplace_server.Platform.{Platform}
use marketplace_server.Role.{TeamRole, is_owner, is_admin}
use marketplace_server.Auth.Principal.{Principal}
use mathlib.Core.Bool.{true}

-- 7 days, in nanoseconds.
abbrev pub invitation_lifetime : ℕ
invitation_lifetime = 604800000000000

-- Go's zero value of `model.User`, which a read that fails leaves.
abbrev pub zero_user : User
zero_user = record {
  id = "";
  username = "";
  email = none;
  display_name = "";
  status = UserStatus.unlisted "";
  password_hash = "";
  created_at = 0;
  updated_at = 0;
}

abbrev pub found_or_zero : Result StoreError User → User
found_or_zero (ok u) = u
found_or_zero (err _) = zero_user

unfoldable pub invitation_from_model : TeamInvitation → TeamRecord → User → User → InvitationView
invitation_from_model m r u i = record {
  id = m.id;
  team_id = r.id;
  team_slug = r.slug;
  team_display_name = r.display_name;
  user_id = u.id;
  username = u.username;
  user_display_name = u.display_name;
  role = m.role;
  invited_by_user_id = i.id;
  inviter_username = i.username;
  status = pending;
  expires_at = m.expires_at;
  accepted_at = none;
  rejected_at = none;
  revoked_at = none;
  created_at = m.created_at;
  updated_at = m.updated_at;
}

unfoldable pub invitation_page : List TeamInvitationRecord → ℕ → ℕ → ℕ → ℕ → Page InvitationView
invitation_page rows page size total now = record {
  items = map (invitation_item now) rows;
  page = page;
  size = size;
  total = total;
}

unfoldable pub canonical_uuid : Platform → String → Bool
canonical_uuid env v = elim (env.parse_uuid v) [ none ↦ false | some parsed ↦ parsed == v ]

abbrev pub new_invitation : String → String → String → TeamRole → String → ℕ → TeamInvitation
new_invitation id namespace_id user_id role invited_by now = record {
  id = id;
  namespace_id = namespace_id;
  user_id = user_id;
  role = role;
  invited_by_user_id = invited_by;
  expires_at = now + invitation_lifetime;
  accepted_at = none;
  rejected_at = none;
  revoked_at = none;
  created_at = now;
  updated_at = now;
}

-- The user of `Invite`: any error, and a user who is not active, is not found.
abbrev pub invitee : {S : Type 0} → Result StoreError User → Step S User
invitee (ok u) s = if is_active u.status then (ok u, s) else (err team_not_found, s)
invitee (err _) s = (err team_not_found, s)

abbrev pub refuse_member : {S : Type 0} → Result StoreError TeamRole → Step S (Unit {0})
refuse_member (ok _) s = (err team_conflict, s)
refuse_member (err not_found) s = (ok tt, s)
refuse_member (err x) s = (err (store x), s)

abbrev pub team_of : {S : Type 0} → String → List TeamRecord → Step S (Option Team)
team_of namespace_id [] s = (err team_not_found, s)
team_of namespace_id (r ∷ rows) s =
    let rest = team_of namespace_id rows s in
    if r.id == namespace_id then (ok (some (team_from_record r false)), s) else rest

module _ (env : Platform) {S : Type 0} (repository : TeamStore S) where
  unfoldable pub invite :
      Principal → String → String → TeamRole → ℕ → String → Step S InvitationView
  invite p slug username role now id = do
    (r, admin) ← resolve env repository p slug
    refuse_if (not (is_team_role role)) invalid_team_input
    refuse_if (not (can_manage_role r.current_user_role admin role)) team_forbidden
    found ← look (repository.find_user_by_username username)
    user ← invitee found
    membership ← look (repository.team_role r.id user.id)
    refuse_member membership
    let m = new_invitation id r.id user.id role p.user_id now
    write map_team_error (repository.create_team_invitation m)
    inviter ← look (repository.find_user_by_id p.user_id)
    log_mutation repository p "team.invitations.manage" id "team_invitation" "success" ""
    pure (invitation_from_model m r user (found_or_zero inviter))

  unfoldable pub list_invitations : Principal → String → ℕ → ℕ → ℕ → Step S (Page InvitationView)
  list_invitations p slug page size now = do
    (r, admin) ← resolve env repository p slug
    refuse_if
        (not (is_owner r.current_user_role) && not (is_admin r.current_user_role) && not admin)
        team_forbidden
    refuse_if (not (valid_page page size)) invalid_team_input
    (rows, total) ← read store (repository.list_team_invitations r.id page size)
    pure (invitation_page rows page size total now)

  unfoldable pub inbox : Principal → ℕ → ℕ → ℕ → Step S (Page InvitationView)
  inbox p page size now = do
    refuse_if (not (is_team_principal p)) team_forbidden
    refuse_if (not (valid_page page size)) invalid_team_input
    (rows, total) ← read store (repository.list_user_pending_invitations p.user_id now page size)
    pure (invitation_page rows page size total now)

  unfoldable pub joined_team : Principal → String → Bool → Step S (Option Team)
  joined_team p namespace_id false = pure none
  joined_team p namespace_id true = do
    (rows, total) ← read store (repository.list_teams p.user_id false 1 100)
    team_of namespace_id rows

  unfoldable pub respond : Principal → String → Bool → ℕ → Step S (Option Team)
  respond p id accept now = do
    refuse_if (not (is_team_principal p)) team_forbidden
    refuse_if (not (canonical_uuid env id)) team_not_found
    namespace_id ←
        write_value map_team_error (repository.respond_invitation id p.user_id accept now)
    log_mutation repository p "team.invitation.respond" id "team_invitation" "success" ""
    joined_team p namespace_id accept

  -- The checks that `Revoke` and `Reissue` share.
  unfoldable pub managed_invitation : Principal → String → String → Step S TeamRecord
  managed_invitation p slug id = do
    (r, admin) ← resolve env repository p slug
    refuse_if
        (not (is_owner r.current_user_role) && not (is_admin r.current_user_role) && not admin)
        team_forbidden
    invitation ← read map_team_error (repository.find_invitation r.id id)
    refuse_if (not (can_manage_role r.current_user_role admin invitation.role)) team_forbidden
    pure r

  unfoldable pub revoke : Principal → String → String → ℕ → Step S (Unit {0})
  revoke p slug id now = do
    r ← managed_invitation p slug id
    write map_team_error (repository.revoke_invitation r.id id now)
    log_mutation repository p "team.invitations.manage" id "team_invitation" "success" ""

  unfoldable pub reissue : Principal → String → String → ℕ → String → Step S InvitationView
  reissue p slug id now new_id = do
    r ← managed_invitation p slug id
    m ←
        write_value map_team_error
          (repository.reissue_invitation r.id id new_id now (now + invitation_lifetime))
    user ← look (repository.find_user_by_id m.user_id)
    inviter ← look (repository.find_user_by_id m.invited_by_user_id)
    pure (invitation_from_model m r (found_or_zero user) (found_or_zero inviter))
