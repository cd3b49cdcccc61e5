-- ===== src/Teams/Requests.antt =====
-- The requests of team_service.go that change a team, as commands.
use marketplace_server.Teams.Service.{resolve, update}
use marketplace_server.Teams.Members.{put_member, remove_member}
use marketplace_server.Teams.Invitations.{invite, revoke, reissue}
use marketplace_server.Teams.Step.{Step, pure, ◌>>◌, TeamError}
use marketplace_server.Base.{String, Result, ℕ, Bool, ok, false, ◌||◌, err, true}
use marketplace_server.Platform.{Platform}
use marketplace_server.Teams.Store.{TeamStore}
use marketplace_server.Role.{TeamRole, is_owner}
use marketplace_server.Auth.Principal.{Principal}
use marketplace_server.Teams.Access.{is_manager}

pub data TeamRequest : Type 0 where
  rename : String → ℕ → TeamRequest
  put : String → TeamRole → ℕ → TeamRequest
  remove : String → TeamRequest
  offer : String → TeamRole → ℕ → String → TeamRequest
  withdraw : String → ℕ → TeamRequest
  renew : String → ℕ → String → TeamRequest

module _ (env : Platform) {S : Type 0} (repository : TeamStore S) where
  -- A request of a principal about the team with a slug; what it answers is not kept.
  unfoldable pub perform : Principal → String → TeamRequest → Step S (Unit {0})
  perform p slug (rename name now) = update env repository p slug name now >> pure tt
  perform p slug (put user_id role now) =
      put_member env repository p slug user_id role now >> pure tt
  perform p slug (remove user_id) = remove_member env repository p slug user_id
  perform p slug (offer username role now id) =
      invite env repository p slug username role now id >> pure tt
  perform p slug (withdraw id now) = revoke env repository p slug id now
  perform p slug (renew id now new_id) = reissue env repository p slug id now new_id >> pure tt

  -- What `resolve` finds: whether the principal is a system administrator, or an owner or an admin
  -- of the team.
  abbrev pub is_managed_by : Principal → String → S → Bool
  is_managed_by p slug s = elim (resolve env repository p slug s).0 [
    | ok found ↦ found.1 || is_manager found.0.current_user_role
    | err _ ↦ false
  ]

  -- A system administrator, or an owner of the team.
  abbrev pub is_owned_by : Principal → String → S → Bool
  is_owned_by p slug s = elim (resolve env repository p slug s).0 [
    | ok found ↦ found.1 || is_owner found.0.current_user_role
    | err _ ↦ false
  ]

-- The answer is an error.
abbrev pub is_refused : {A : Type 0} → Result TeamError A → Bool
is_refused (ok _) = false
is_refused (err _) = true
