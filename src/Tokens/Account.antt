-- ===== src/Tokens/Account.antt =====
-- mod/backend/domain/identity/service/account_service.go: passwords and JWTs. `verify_password` is
-- `auth.VerifyPassword`, with none for an error; the reads are of a store.
use marketplace_server.Tokens.Authenticator.{CredentialError, invalid_credentials}
use marketplace_server.Auth.Principal
use marketplace_server.Identity.Model.{is_active, StoreError, User, not_found}
use marketplace_server.Base.{
  Option, String, Bool, Result, false, ok, some, err, if◌then◌else◌, ◌&&◌,
}
use marketplace_server.Auth.Principal.{Principal, new_user_principal, jwt, made}
use mathlib.Core.Option.{none}
use marketplace_server.Auth.Scope.{unrestricted_scopes}

pub data AccountError : Type 0 where
  bad_credentials : AccountError
  store : StoreError → AccountError

abbrev pub dummy_password_hash : String
dummy_password_hash =
    "$argon2id$v=19$m=65536,t=3,p=2$bWFya2V0cGxhY2UtZHVtbXk$k7Ts/CF78xXP2lka6aDYD6QmLPmoeWqksbOOOAVlsCI"

abbrev pub is_valid : Option Bool → Bool
is_valid none = false
is_valid (some valid) = valid

module _ (verify_password : String → String → Option Bool) where
  -- `AuthenticatePassword` once the user was looked for.
  unfoldable pub password_answer : String → Result StoreError User → Result AccountError User
  password_answer password (ok user) =
      let hash = if is_active user.status then user.password_hash else dummy_password_hash in
      if is_valid (verify_password password hash) && is_active user.status
      then ok user
      else err bad_credentials
  password_answer password (err not_found) =
      let valid = verify_password password dummy_password_hash in err bad_credentials
  password_answer password (err x) = err (store x)

  unfoldable pub authenticate_password :
      {S : Type 0}
      → (String → S → Result StoreError User)
      → String
      → String
      → S
      → Result AccountError User
  authenticate_password find_user_by_username username password s =
      password_answer password (find_user_by_username username s)

-- `ResolveJWTPrincipal`
unfoldable pub jwt_answer : Result StoreError User → Result CredentialError Principal
jwt_answer (err _) = err invalid_credentials
jwt_answer (ok user) = elim (new_user_principal user.id user.username jwt unrestricted_scopes) [
  | made p ↦ ok p
  | Principal.failed _ ↦ err invalid_credentials
]

unfoldable pub resolve_jwt_principal :
    {S : Type 0}
    → (String → S → Result StoreError User)
    → String
    → S
    → Result CredentialError Principal
resolve_jwt_principal find_user_by_username username s =
    jwt_answer (find_user_by_username username s)
