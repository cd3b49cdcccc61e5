-- ===== src/Teams/Access.antt =====
-- Who may do what with a team: the tables of team_service.go, and the checks of a request's texts.
use marketplace_server.Teams.Views.{
  TeamPermissions, TeamRecord, Team, TeamInvitationRecord, InvitationView, InvitationStatus,
  pending, accepted, rejected, revoked, expired,
}
use marketplace_server.Auth.Principal.{Principal, is_user, is_jwt}
use marketplace_server.Base.{
  Bool, String, ℕ, Option, if◌then◌else◌, ltb, not, is_empty, is_some, true, ◌&&◌, ◌||◌, leb, none,
  some,
}
use marketplace_server.Role.{TeamRole, is_owner, is_no_role, is_admin}
use mathlib.Core.Bool.{false}
use marketplace_server.Identity.Text.{trim_space, rune_count}

-- `TeamService.principal`
unfoldable pub is_team_principal : Principal → Bool
is_team_principal p = is_user p && is_jwt p.credential && not (is_empty p.user_id)

unfoldable pub valid_page : ℕ → ℕ → Bool
valid_page page size = ltb 0 page && ltb 0 size && leb size 100

unfoldable pub valid_team_text : String → ℕ → Bool
valid_team_text v max = not (is_empty (trim_space v)) && leb (rune_count (trim_space v)) max

abbrev pub is_manager : TeamRole → Bool
is_manager role = is_owner role || is_admin role

unfoldable pub permissions : TeamRole → Bool → TeamPermissions
permissions role true = record {
  read_members = true;
  manage_members = true;
  update_settings = true;
  manage_owners = true;
}
permissions role false = record {
  read_members = not (is_no_role role);
  manage_members = is_manager role;
  update_settings = is_manager role;
  manage_owners = is_owner role;
}

unfoldable pub can_manage_role : TeamRole → Bool → TeamRole → Bool
can_manage_role actor system target =
    if system
    then true
    else if is_owner actor
    then true
    else is_admin actor && not (is_owner target)

abbrev pub shown_role : TeamRole → Option TeamRole
shown_role role = if is_no_role role then none else some role

unfoldable pub team_from_record : TeamRecord → Bool → Team
team_from_record r admin = record {
  id = r.id;
  slug = r.slug;
  display_name = r.display_name;
  current_user_role = shown_role r.current_user_role;
  permissions = permissions r.current_user_role admin;
  created_at = r.created_at;
  updated_at = r.updated_at;
}

-- The switch of `invitationPage`.
unfoldable pub invitation_status : TeamInvitationRecord → ℕ → InvitationStatus
invitation_status r now =
    if is_some r.accepted_at
    then accepted
    else if is_some r.rejected_at
    then rejected
    else if is_some r.revoked_at
    then revoked
    else if not (ltb now r.expires_at)
    then expired
    else pending

unfoldable pub invitation_item : ℕ → TeamInvitationRecord → InvitationView
invitation_item now r = record {
  id = r.id;
  team_id = r.namespace_id;
  team_slug = r.team_slug;
  team_display_name = r.team_display_name;
  user_id = r.user_id;
  username = r.username;
  user_display_name = r.user_display_name;
  role = r.role;
  invited_by_user_id = r.invited_by_user_id;
  inviter_username = r.inviter_username;
  status = invitation_status r now;
  expires_at = r.expires_at;
  accepted_at = r.accepted_at;
  rejected_at = r.rejected_at;
  revoked_at = r.revoked_at;
  created_at = r.created_at;
  updated_at = r.updated_at;
}
