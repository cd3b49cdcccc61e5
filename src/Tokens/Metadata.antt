-- ===== src/Tokens/Metadata.antt =====
-- mod/backend/domain/identity/service/token_service.go: what the token service takes, shows and asks
-- of its store.
use Prim.Native.String.{len, String}
use marketplace_server.Tokens.ApiKey.{ApiKeyError}
use marketplace_server.Tokens.Credentials.{TokenMetadataRecord, TokenRevealRecord, is_expired}
use marketplace_server.Identity.Model.{
  Check, StoreError, PersonalAccessToken, TokenPreset, User, is_supported_preset,
}
use marketplace_server.Base.{
  List, ℕ, Result, if◌then◌else◌, Option, is_some, ok, err, not, is_empty, ltb, ◌||◌,
}
use marketplace_server.Identity.Text.{trim_space}
use mathlib.Core.Option.{none}

pub data TokenError : Type 0 where
  invalid_token_input token_not_found token_authorization invalid_password : TokenError
  generation : TokenError
  index : ApiKeyError → TokenError
  store : StoreError → TokenError

pub data TokenStatus : Type 0 where
  active expired revoked : TokenStatus

pub record TokenMetadata : Type 0 where
  pub id : String
  pub name : String
  pub preset : TokenPreset
  pub status : TokenStatus
  pub expires_at : Option ℕ
  pub last_used_at : Option ℕ
  pub revoked_at : Option ℕ
  pub created_at : ℕ

pub record CreatedToken : Type 0 where
  pub metadata : TokenMetadata
  pub token : String

pub record TokenPage : Type 0 where
  pub items : List TokenMetadata
  pub page : ℕ
  pub size : ℕ
  pub total : ℕ

pub record CreateTokenInput : Type 0 where
  pub name : String
  pub preset : TokenPreset
  pub expires_at : Option ℕ

-- A read leaves the store; a write answers an error or nil and leaves a store.
pub record TokenStore (S : Type 0) : Type 0 where
  pub create_token : PersonalAccessToken → S → Check × S
  pub list_token_metadata : String → ℕ → ℕ → S → Result StoreError (List TokenMetadataRecord × ℕ)
  pub find_token_metadata_by_id_and_user_id :
      String → String → S → Result StoreError TokenMetadataRecord
  pub find_token_reveal_by_id_and_user_id :
      String → String → S → Result StoreError TokenRevealRecord
  pub revoke_token : String → String → ℕ → S → Check × S
  pub find_user_by_username : String → S → Result StoreError User

unfoldable pub validate_create_token_input :
    CreateTokenInput → ℕ → Result TokenError (String × Option ℕ)
validate_create_token_input input now =
    let name = trim_space input.name in
    if is_empty name || ltb 128 (len name) || not (is_supported_preset input.preset)
    then err invalid_token_input
    else if is_expired input.expires_at now
    then err invalid_token_input
    else ok (name, input.expires_at)

unfoldable pub token_status : TokenMetadataRecord → ℕ → TokenStatus
token_status r now =
    if is_some r.revoked_at
    then revoked
    else if is_expired r.expires_at now
    then expired
    else TokenStatus.active

unfoldable pub metadata_from_record : ℕ → TokenMetadataRecord → TokenMetadata
metadata_from_record now r = record {
  id = r.id;
  name = r.name;
  preset = r.preset;
  status = token_status r now;
  expires_at = r.expires_at;
  last_used_at = r.last_used_at;
  revoked_at = r.revoked_at;
  created_at = r.created_at;
}

abbrev pub record_from_token : PersonalAccessToken → TokenMetadataRecord
record_from_token t = record {
  id = t.id;
  user_id = t.user_id;
  name = t.name;
  preset = t.preset;
  expires_at = t.expires_at;
  last_used_at = t.last_used_at;
  revoked_at = t.revoked_at;
  created_at = t.created_at;
}

abbrev pub new_token :
    String → String → String → TokenPreset → String → String → Option ℕ → ℕ → PersonalAccessToken
new_token id user_id name preset plaintext secret_hmac expires_at now = record {
  id = id;
  user_id = user_id;
  name = name;
  preset = preset;
  secret_plaintext = plaintext;
  secret_hmac = secret_hmac;
  expires_at = expires_at;
  last_used_at = none;
  revoked_at = none;
  created_at = now;
  updated_at = now;
}
