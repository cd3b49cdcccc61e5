-- ===== src/Tokens/Requests.antt =====
-- mod/backend/domain/identity/service/token_service.go: personal access tokens of the current user.
-- `now`, `id` and `plaintext` are what the clock, `newID` and `auth.GenerateAPIKey` answer in the
-- request.
use Prim.Native.String.{String}
use marketplace_server.Tokens.ApiKey.{index_api_key, ApiKeyError}
use marketplace_server.Tokens.Credentials.{TokenMetadataRecord, TokenRevealRecord}
use marketplace_server.Tokens.Account.{authenticate_password, AccountError}
use marketplace_server.Identity.Model.{Check, StoreError, invalid_pagination, not_found, User}
use marketplace_server.Base.{
  List, ℕ, Result, if◌then◌else◌, Bool, Option, is_some, ok, err, map, not, some, is_empty, ◌&&◌,
  ltb, ◌||◌, ◌-◌, ◌*◌, true, false,
}
use marketplace_server.Auth.Action.{ResourceType, Action, ResourceRef, token_read, token_write}
use marketplace_server.Auth.Principal.{Principal, is_user, is_jwt}
use marketplace_server.Identity.Text.{trim_space}
use mathlib.Core.Option.{none}
use marketplace_server.Platform.{Platform}
use marketplace_server.Tokens.Metadata.{
  TokenError, invalid_token_input, token_not_found, token_authorization, invalid_password,
  generation, index, store, CreatedToken, TokenPage, CreateTokenInput, TokenStore,
  validate_create_token_input, metadata_from_record, record_from_token, new_token,
}

abbrev listing_error : StoreError → TokenError
listing_error invalid_pagination = invalid_token_input
listing_error x = store x

abbrev finding_error : StoreError → TokenError
finding_error not_found = token_not_found
finding_error x = store x

abbrev written : {A S : Type 0} → A → Check × S → Result TokenError A × S
written a (none, s) = (ok a, s)
written a (some x, s) = (err (store x), s)

abbrev pub token_resource : ResourceType → String → ResourceRef
token_resource type id = record { type = type; id = id; namespace_id = "" }

module _ {S : Type 0} (repository : TokenStore S)
    (authorizer : Principal → Action → ResourceRef → S → Bool) where
  unfoldable pub authorize_current_user : Principal → Action → S → Bool
  authorize_current_user p action s =
      is_user p
      && not (is_empty p.user_id)
      && is_jwt p.credential
      && authorizer p action (token_resource ResourceType.token_collection p.user_id) s

  abbrev listed :
      ℕ → ℕ → ℕ → Result StoreError (List TokenMetadataRecord × ℕ) → Result TokenError TokenPage
  listed page size now (ok (records, total)) = ok (record {
    items = map (metadata_from_record now) records;
    page = page;
    size = size;
    total = total;
  })
  listed page size now (err x) = err (listing_error x)

  -- `List`. `page-1 > math.MaxInt/size` is that the product is above `math.MaxInt`.
  unfoldable pub list : Principal → ℕ → ℕ → ℕ → S → Result TokenError TokenPage
  list p page size now s =
      if not (authorize_current_user p token_read s)
      then err token_authorization
      else if ltb page 1
          || ltb size 1
          || ltb 100 size
          || ltb 9223372036854775807 ((page - 1) * size)
      then err invalid_token_input
      else listed page size now (repository.list_token_metadata p.user_id page size s)

  abbrev revoke_found :
      Principal → ℕ → Result StoreError TokenMetadataRecord → S → Result TokenError (Unit {0}) × S
  revoke_found p now (err x) s = (err (finding_error x), s)
  revoke_found p now (ok r) s =
      if not (authorizer p token_write (token_resource ResourceType.token r.id) s)
      then (err token_authorization, s)
      else if is_some r.revoked_at
      then (ok tt, s)
      else written tt (repository.revoke_token r.id p.user_id now s)

  unfoldable pub revoke : Principal → String → ℕ → S → Result TokenError (Unit {0}) × S
  revoke p token_id now s =
      if not (authorize_current_user p token_write s)
      then (err token_authorization, s)
      else if is_empty (trim_space token_id)
      then (err token_not_found, s)
      else revoke_found p now
          (repository.find_token_metadata_by_id_and_user_id token_id p.user_id s) s

  abbrev reveal_found :
      Principal → ℕ → Result StoreError TokenRevealRecord → S → Result TokenError CreatedToken
  reveal_found p now (err x) s = err (finding_error x)
  reveal_found p now (ok r) s =
      if not (authorizer p token_read (token_resource ResourceType.token r.metadata.id) s)
      then err token_authorization
      else ok
          (record { metadata = metadata_from_record now r.metadata; token = r.secret_plaintext })

  abbrev password_ok : Result AccountError User → Bool
  password_ok (ok _) = true
  password_ok (err _) = false

  unfoldable pub reveal :
      (String → String → Option Bool)
      → Principal
      → String
      → String
      → ℕ
      → S
      → Result TokenError CreatedToken
  reveal verify_password p token_id password now s =
      if not (authorize_current_user p token_read s)
      then err token_authorization
      else if is_empty (trim_space token_id)
      then err token_not_found
      else if not (
          password_ok (
            authenticate_password verify_password repository.find_user_by_username p.username
              password s))
      then err invalid_password
      else reveal_found p now (repository.find_token_reveal_by_id_and_user_id token_id p.user_id s)
          s

  abbrev create_indexed :
      Principal
      → CreateTokenInput
      → ℕ
      → String
      → (String × Option ℕ)
      → String
      → Result ApiKeyError String
      → S
      → Result TokenError CreatedToken × S
  create_indexed p input now id (name, expires_at) plaintext (err x) s = (err (index x), s)
  create_indexed p input now id (name, expires_at) plaintext (ok secret_hmac) s =
      let token = new_token id p.user_id name input.preset plaintext secret_hmac expires_at now in
      written
        (record {
          metadata = metadata_from_record now (record_from_token token);
          token = plaintext;
        })
        (repository.create_token token s)

  abbrev create_generated :
      Platform
      → List ℕ
      → Principal
      → CreateTokenInput
      → ℕ
      → String
      → (String × Option ℕ)
      → Option String
      → S
      → Result TokenError CreatedToken × S
  create_generated env pepper p input now id checked none s = (err generation, s)
  create_generated env pepper p input now id checked (some plaintext) s =
      create_indexed p input now id checked plaintext (index_api_key env plaintext pepper) s

  abbrev create_checked :
      Platform
      → List ℕ
      → Principal
      → CreateTokenInput
      → ℕ
      → String
      → Option String
      → Result TokenError (String × Option ℕ)
      → S
      → Result TokenError CreatedToken × S
  create_checked env pepper p input now id plaintext (err x) s = (err x, s)
  create_checked env pepper p input now id plaintext (ok checked) s =
      create_generated env pepper p input now id checked plaintext s

  unfoldable pub create :
      Platform
      → List ℕ
      → Principal
      → CreateTokenInput
      → ℕ
      → String
      → Option String
      → S
      → Result TokenError CreatedToken × S
  create env pepper p input now id plaintext s =
      if not (authorize_current_user p token_write s)
      then (err token_authorization, s)
      else create_checked env pepper p input now id plaintext
          (validate_create_token_input input now) s
