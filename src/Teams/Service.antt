-- ===== src/Teams/Service.antt =====
-- team_service.go: creating, listing, reading and renaming teams. `now` and `id` are what
-- `s.now().UTC()` and `s.newID()` answer in the request.
use marketplace_server.Teams.Views.{TeamRecord, Team, Page}
use marketplace_server.Teams.Step.{
  Step, pure, read, write, note, refuse_if, missing_team, taken_team, store, ◌>>=◌, ◌>>◌,
  team_forbidden, invalid_team_input, team_not_found,
}
use marketplace_server.Teams.Store.{TeamStore}
use marketplace_server.Auth.Principal.{Principal}
use marketplace_server.Platform.{Platform}
use marketplace_server.Base.{String, ℕ, Bool, not, ◌&&◌, map, ◌||◌, ltb, none, some, false}
use marketplace_server.Role.{is_no_role, is_owner, is_admin, owner}
use marketplace_server.Teams.Access.{
  is_team_principal, team_from_record, valid_page, valid_team_text, permissions,
}
use marketplace_server.Identity.Text.{normalize_username, trim_space}
use marketplace_server.Identity.Slug.{identity_slug}
use Prim.Native.String.{len}
use marketplace_server.Identity.Model.{NamespaceKind}

module _ {S : Type 0} (repository : TeamStore S) where
  unfoldable pub log_mutation :
      Principal → String → String → String → String → String → Step S (Unit {0})
  log_mutation p action target_id target_type outcome reason = note (
      repository.log (record {
        actor_user_id = p.user_id;
        action = action;
        target_type = target_type;
        target_id = target_id;
        outcome = outcome;
        reason_code = reason;
      }))

module _ (env : Platform) {S : Type 0} (repository : TeamStore S) where
  unfoldable pub create : Principal → String → String → ℕ → String → Step S Team
  create p slug_text name_text now id = do
    refuse_if (not (is_team_principal p)) team_forbidden
    let slug = normalize_username env slug_text
    let display_name = trim_space name_text
    refuse_if
        (not (identity_slug slug) || ltb 128 (len slug) || not (valid_team_text display_name 255))
        invalid_team_input
    write taken_team (
        repository.create_team
          (record {
            id = id;
            kind = NamespaceKind.team;
            slug = slug;
            display_name = display_name;
            owner_user_id = none;
            created_at = now;
            updated_at = now;
          })
          (record {
            namespace_id = id;
            user_id = p.user_id;
            role = owner;
            created_at = now;
            updated_at = now;
          }))
    log_mutation repository p "team.create" id "team" "success" ""
    pure (record {
      id = id;
      slug = slug;
      display_name = display_name;
      current_user_role = some owner;
      permissions = permissions owner false;
      created_at = now;
      updated_at = now;
    })

  unfoldable pub list : Principal → ℕ → ℕ → Bool → Step S (Page Team)
  list p page size all = do
    refuse_if (not (is_team_principal p)) team_forbidden
    refuse_if (not (valid_page page size)) invalid_team_input
    admin ← read store (repository.is_system_admin p.user_id)
    refuse_if (all && not admin) team_forbidden
    (rows, total) ← read store (repository.list_teams p.user_id all page size)
    pure (record {
      items = map (λ r. team_from_record r admin) rows;
      page = page;
      size = size;
      total = total;
    })

  unfoldable pub resolve : Principal → String → Step S (TeamRecord × Bool)
  resolve p slug_text = do
    refuse_if (not (is_team_principal p)) team_forbidden
    let slug = normalize_username env slug_text
    refuse_if (not (identity_slug slug)) team_not_found
    r ← read missing_team (repository.find_team_by_slug slug p.user_id)
    admin ← read store (repository.is_system_admin p.user_id)
    pure (r, admin)

  unfoldable pub get : Principal → String → Step S Team
  get p slug = do
    (r, admin) ← resolve p slug
    refuse_if (is_no_role r.current_user_role && not admin) team_not_found
    pure (team_from_record r admin)

  unfoldable pub update : Principal → String → String → ℕ → Step S Team
  update p slug name_text now = do
    (r, admin) ← resolve p slug
    refuse_if
        (not admin && not (is_owner r.current_user_role) && not (is_admin r.current_user_role))
        team_forbidden
    let display_name = trim_space name_text
    refuse_if (not (valid_team_text display_name 255)) invalid_team_input
    write store (repository.update_team_display_name r.id display_name now)
    log_mutation repository p "team.settings.write" r.id "team" "success" ""
    pure (team_from_record (record r { display_name = display_name; updated_at = now }) admin)
