-- ===== src/Tokens/Authenticator.antt =====
-- mod/backend/domain/identity/service/authenticator.go: personal access tokens over HTTP and Git.
use marketplace_server.Auth.Principal
use marketplace_server.Tokens.ApiKey.{index_api_key}
use marketplace_server.Tokens.Credentials.{TokenCredentialRecord, is_expired}
use marketplace_server.Base.{
  String, Bool, List, Result, true, ℕ, ◌||◌, err, false, ok, if◌then◌else◌, some, not, ◌∷◌, ◌==◌,
  [], is_some,
}
use marketplace_server.Identity.Model.{
  TokenPreset, StoreError, Check, git_clone, git_write, is_supported_preset, is_active,
}
use marketplace_server.Platform.{Platform}
use marketplace_server.Auth.Principal.{Principal, new_user_principal, pat, made}
use marketplace_server.Auth.Scope.{restricted_scopes, ScopeSet}
use mathlib.Core.Option.{none}
use marketplace_server.Auth.Action.{marketplace_read, plugin_read, plugin_write}
use marketplace_server.Identity.Text.{normalize_username}

pub data GitOperation : Type 0 where
  read write : GitOperation
  unlisted : String → GitOperation

-- The sentinel `ErrInvalidCredentials`, the only error of the authenticator.
pub data CredentialError : Type 0 where
  invalid_credentials : CredentialError

-- A read leaves the store; `TouchToken` answers an error or nil and leaves a store.
pub record CredentialStore (S : Type 0) : Type 0 where
  pub find_token_credential_by_secret_hmac : String → S → Result StoreError TokenCredentialRecord
  pub touch_token : String → ℕ → S → Check × S

abbrev pub is_clone : TokenPreset → Bool
is_clone git_clone = true
is_clone _ = false

abbrev pub is_git_write : TokenPreset → Bool
is_git_write git_write = true
is_git_write _ = false

unfoldable pub pat_scopes : TokenPreset → ScopeSet
pat_scopes preset = restricted_scopes (
    if is_git_write preset
    then marketplace_read ∷ plugin_read ∷ plugin_write ∷ []
    else marketplace_read ∷ plugin_read ∷ [])

unfoldable pub principal_for_pat : TokenCredentialRecord → Result CredentialError Principal
principal_for_pat r = elim (new_user_principal r.user_id r.username pat (pat_scopes r.preset)) [
  | made p ↦ ok p
  | Principal.failed _ ↦ err invalid_credentials
]

-- The presets that an operation accepts.
unfoldable pub accepts_operation : GitOperation → TokenPreset → Bool
accepts_operation read preset = is_clone preset || is_git_write preset
accepts_operation write preset = is_git_write preset
accepts_operation (GitOperation.unlisted _) preset = false

-- The checks of `authenticate` on the row of a token.
module _ (env : Platform) where
  unfoldable pub check_record :
      String
      → ℕ
      → Result StoreError TokenCredentialRecord
      → Result CredentialError TokenCredentialRecord
  check_record username now (err _) = err invalid_credentials
  check_record username now (ok r) =
      if not (is_active r.user_status)
        || not (r.username == normalize_username env username)
        || not (is_supported_preset r.preset)
      then err invalid_credentials
      else if is_some r.revoked_at || is_expired r.expires_at now
      then err invalid_credentials
      else ok r

module _ (env : Platform) (pepper : List ℕ) {S : Type 0} (repository : CredentialStore S) where
  unfoldable pub authenticate :
      String → String → ℕ → S → Result CredentialError TokenCredentialRecord
  authenticate username plaintext now s = elim (index_api_key env plaintext pepper) [
    | err _ ↦ err invalid_credentials
    | ok index ↦
        check_record env username now (repository.find_token_credential_by_secret_hmac index s)
  ]

  abbrev answer_touched : Principal → Check × S → Result CredentialError Principal × S
  answer_touched p (none, s) = (ok p, s)
  answer_touched p (some _, s) = (err invalid_credentials, s)

  unfoldable pub finish : TokenCredentialRecord → ℕ → S → Result CredentialError Principal × S
  finish r now s = elim (principal_for_pat r) [
    | err x ↦ (err x, s)
    | ok p ↦ answer_touched p (repository.touch_token r.id now s)
  ]

  -- `now` is what the clock says when the token is checked, `used` when it is touched.
  unfoldable pub authenticate_git_pat :
      String → String → GitOperation → ℕ → ℕ → S → Result CredentialError Principal × S
  authenticate_git_pat username plaintext operation now used s =
      elim (authenticate username plaintext now s) [
        | err x ↦ (err x, s)
        | ok r ↦
            if accepts_operation operation r.preset
            then finish r used s
            else (err invalid_credentials, s)
      ]

  unfoldable pub authenticate_subscription_pat :
      String → String → ℕ → ℕ → S → Result CredentialError Principal × S
  authenticate_subscription_pat username plaintext now used s =
      elim (authenticate username plaintext now s) [ err x ↦ (err x, s) | ok r ↦ finish r used s ]
