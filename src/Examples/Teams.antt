-- ===== src/Examples/Teams.antt =====
-- The team service on a store that holds its log: ann owns the team, bob is an admin of it, and cat
-- is no member.
use marketplace_server.Teams.Views.{TeamRecord, Team}
use marketplace_server.Teams.Store.{TeamStore, Mutation}
use marketplace_server.Teams.Requests.{put, remove, perform, is_managed_by, is_refused}
use marketplace_server.Teams.Denied.{perform_denied}
use marketplace_server.Teams.Owners.{perform_owner}
use marketplace_server.Teams.Shown.{permissions-is_forbidden, manages}
use marketplace_server.Teams.Access.{permissions, is_team_principal, team_from_record}
use marketplace_server.Teams.Service.{resolve, get, update}
use marketplace_server.Teams.Members.{put_member, remove_member, list_members}
use marketplace_server.Teams.Forbidden.{is_forbidden}
use marketplace_server.Teams.Step.{◌>>=◌}
use marketplace_server.Examples.Engines.{plain_platform}
use marketplace_server.Base.{
  List, String, [], Result, false, none, ◌≡◌, if◌then◌else◌, ok, true, not, refl, ◌==◌, ◌∷◌, err,
  some,
}
use marketplace_server.Identity.Slug.{identity_slug, is_word_char}
use marketplace_server.Role.{admin, owner, viewer, TeamRole, is_no_role, no_role}
use marketplace_server.Identity.Model.{is_team_role, User, StoreError, UserStatus, not_found}
use marketplace_server.Auth.Principal.{Principal, PrincipalKind, jwt}
use marketplace_server.Identity.Text.{normalize_username}
use marketplace_server.Auth.Scope.{unrestricted_scopes}

abbrev role_of : String → TeamRole
role_of user_id = if user_id == "ann" then owner else if user_id == "bob" then admin else no_role

abbrev person : String → User
person id = record {
  id = id;
  username = id;
  email = none;
  display_name = id;
  status = UserStatus.active;
  password_hash = "";
  created_at = 1;
  updated_at = 1;
}

abbrev crew : String → TeamRecord
crew user_id = record {
  id = "t1";
  slug = "crew";
  display_name = "Crew";
  current_user_role = role_of user_id;
  created_at = 1;
  updated_at = 1;
}

abbrev standing : String → Result StoreError TeamRole
standing user_id = if is_no_role (role_of user_id) then err not_found else ok (role_of user_id)

abbrev logbook : TeamStore (List Mutation)
logbook = record {
  create_team = λ n m s. (none, s);
  find_team_by_slug = λ slug u s. if slug == "crew" then ok (crew u) else err not_found;
  list_teams = λ u all page size s. ok (crew u ∷ [], 1);
  update_team_display_name = λ i d now s. (none, s);
  team_role = λ i u s. standing u;
  list_team_members = λ i page size s. ok ([], 0);
  put_team_member = λ i u r now s. (none, s);
  remove_team_member = λ i u s. (none, s);
  find_user_by_username = λ u s. ok (person u);
  find_user_by_id = λ u s. ok (person u);
  is_system_admin = λ u s. ok false;
  create_team_invitation = λ i s. (none, s);
  list_team_invitations = λ i page size s. ok ([], 0);
  list_user_pending_invitations = λ u now page size s. ok ([], 0);
  find_invitation = λ i id s. err not_found;
  respond_invitation = λ id u accept now s. (err not_found, s);
  revoke_invitation = λ i id now s. (none, s);
  reissue_invitation = λ i id new_id now expires s. (err not_found, s);
  log = λ m s. m ∷ s;
}

abbrev signed_in : String → Principal
signed_in id = record {
  kind = PrincipalKind.user;
  user_id = id;
  username = id;
  credential = jwt;
  scopes = unrestricted_scopes;
}

resolved : (resolve plain_platform logbook (signed_in "bob") "crew" []).0 ≡ ok (crew "bob", false)
unfolding resolve is_team_principal ◌>>=◌ identity_slug normalize_username is_word_char
    unrestricted_scopes
resolved = refl

stranger : is_managed_by plain_platform logbook (signed_in "cat") "crew" [] ≡ false
unfolding resolve is_team_principal ◌>>=◌ identity_slug normalize_username is_word_char
    unrestricted_scopes
stranger = refl

perform_denied_example :
    (is_refused (perform plain_platform logbook (signed_in "cat") "crew" (remove "bob") []).0
      ≡ true)
    × ((perform plain_platform logbook (signed_in "cat") "crew" (remove "bob") []).1 ≡ [])
perform_denied_example =
    perform_denied plain_platform logbook (signed_in "cat") "crew" (remove "bob") [] stranger

perform_owner_example :
    (is_refused (perform plain_platform logbook (signed_in "bob") "crew" (put "bob" owner 9) []).0
      ≡ true)
    × ((perform plain_platform logbook (signed_in "bob") "crew" (put "bob" owner 9) []).1 ≡ [])
perform_owner_example =
    perform_owner plain_platform logbook (signed_in "bob") "crew" (put "bob" owner 9) []
      (crew "bob") resolved refl refl

viewer_is_role : is_team_role viewer ≡ true
unfolding is_team_role
viewer_is_role = refl

abbrev shown_to_bob : Team
shown_to_bob = record {
  id = "t1";
  slug = "crew";
  display_name = "Crew";
  current_user_role = some admin;
  permissions = record {
    read_members = true;
    manage_members = true;
    update_settings = true;
    manage_owners = false;
  };
  created_at = 1;
  updated_at = 1;
}

got : (get plain_platform logbook (signed_in "bob") "crew" []).0 ≡ ok shown_to_bob
unfolding get resolve is_team_principal ◌>>=◌ identity_slug normalize_username is_word_char
    unrestricted_scopes team_from_record permissions
got = refl

permissions-is_forbidden_example :
    (shown_to_bob.permissions.read_members
      ≡ not (is_forbidden (list_members plain_platform logbook (signed_in "bob") "crew" 1 20 []).0))
    × (shown_to_bob.permissions.update_settings
        ≡ not (is_forbidden (update plain_platform logbook (signed_in "bob") "crew" "Band" 9 []).0))
    × (manages shown_to_bob.permissions owner
        ≡ not (
            is_forbidden
              (remove_member plain_platform logbook (signed_in "bob") "crew" "ann" []).0))
    × (manages shown_to_bob.permissions viewer
        ≡ not (
            is_forbidden
              (put_member plain_platform logbook (signed_in "bob") "crew" "cat" viewer 9 []).0))
permissions-is_forbidden_example =
    permissions-is_forbidden plain_platform logbook (signed_in "bob") "crew" "Band" "ann" "cat" 9 1
      20 [] shown_to_bob owner viewer not_found got refl viewer_is_role refl
