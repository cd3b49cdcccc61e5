-- ===== src/Teams/Step.antt =====
-- team_service.go: the errors of the team service, and the steps of its requests.
pub use marketplace_server.Handler.{
  pure, raise, read, look, write, write_value, note, refuse_if, ◌>>◌,
}
unfoldable pub use marketplace_server.Handler.{◌>>=◌}
use marketplace_server.Handler
use marketplace_server.Identity.Model.{StoreError, conflict, not_found}

pub data TeamError : Type 0 where
  invalid_team_input team_not_found team_forbidden team_conflict : TeamError
  store : StoreError → TeamError

-- `mapTeamError`
unfoldable pub map_team_error : StoreError → TeamError
map_team_error not_found = team_not_found
map_team_error conflict = team_conflict
map_team_error x = store x

-- `errors.Is(err, dao.ErrIdentityNotFound)` alone
abbrev pub missing_team : StoreError → TeamError
missing_team not_found = team_not_found
missing_team x = store x

-- `errors.Is(err, dao.ErrIdentityConflict)` alone
abbrev pub taken_team : StoreError → TeamError
taken_team conflict = team_conflict
taken_team x = store x

abbrev pub Step : Type 0 → Type 0 → Type 0
Step S A = Handler.Step TeamError S A
