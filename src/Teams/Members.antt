-- ===== src/Teams/Members.antt =====
-- team_service.go: the members of a team.
use marketplace_server.Teams.Service.{resolve, log_mutation}
use marketplace_server.Teams.Access.{can_manage_role, valid_page}
use marketplace_server.Teams.Views.{TeamMemberRecord, TeamMember, Page}
use marketplace_server.Teams.Step.{
  Step, pure, read, look, write, refuse_if, map_team_error, store, ◌>>=◌, ◌>>◌, team_forbidden,
  invalid_team_input,
}
use marketplace_server.Teams.Store.{TeamStore}
use marketplace_server.Role.{TeamRole, is_no_role}
use marketplace_server.Platform.{Platform}
use marketplace_server.Base.{Bool, Result, String, not, ℕ, ok, err, ◌&&◌, false, map}
use marketplace_server.Auth.Principal.{Principal}
use marketplace_server.Identity.Model.{StoreError, is_team_role}

abbrev pub member_item : TeamMemberRecord → TeamMember
member_item m = record {
  user_id = m.user_id;
  username = m.username;
  display_name = m.display_name;
  status = m.user_status;
  role = m.role;
  created_at = m.created_at;
  updated_at = m.updated_at;
}

-- The role that a member holds, when it could be read, must be one that the actor may manage.
abbrev pub out_of_reach : TeamRole → Bool → Result StoreError TeamRole → Bool
out_of_reach actor admin (ok current) = not (can_manage_role actor admin current)
out_of_reach actor admin (err _) = false

module _ (env : Platform) {S : Type 0} (repository : TeamStore S) where
  unfoldable pub list_members : Principal → String → ℕ → ℕ → Step S (Page TeamMember)
  list_members p slug page size = do
    (r, admin) ← resolve env repository p slug
    refuse_if (is_no_role r.current_user_role && not admin) team_forbidden
    refuse_if (not (valid_page page size)) invalid_team_input
    (rows, total) ← read store (repository.list_team_members r.id page size)
    pure (record { items = map member_item rows; page = page; size = size; total = total })

  unfoldable pub put_member : Principal → String → String → TeamRole → ℕ → Step S TeamMember
  put_member p slug user_id role now = do
    (r, admin) ← resolve env repository p slug
    refuse_if (not (is_team_role role)) invalid_team_input
    refuse_if (not (can_manage_role r.current_user_role admin role)) team_forbidden
    current ← look (repository.team_role r.id user_id)
    refuse_if (out_of_reach r.current_user_role admin current) team_forbidden
    write map_team_error (repository.put_team_member r.id user_id role now)
    u ← read map_team_error (repository.find_user_by_id user_id)
    log_mutation repository p "team.members.manage" user_id "team_membership" "success" ""
    pure (record {
      user_id = u.id;
      username = u.username;
      display_name = u.display_name;
      status = u.status;
      role = role;
      created_at = now;
      updated_at = now;
    })

  unfoldable pub remove_member : Principal → String → String → Step S (Unit {0})
  remove_member p slug user_id = do
    (r, admin) ← resolve env repository p slug
    role ← read map_team_error (repository.team_role r.id user_id)
    refuse_if (not (can_manage_role r.current_user_role admin role)) team_forbidden
    write map_team_error (repository.remove_team_member r.id user_id)
    log_mutation repository p "team.members.manage" user_id "team_membership" "success" ""
