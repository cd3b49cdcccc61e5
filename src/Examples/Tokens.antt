-- ===== src/Examples/Tokens.antt =====
-- API keys and personal access tokens on a store with one token.
use marketplace_server.Tokens.ApiKey.{
  KeepsDigests, index_api_key, validate_api_key_index, validate-index_api_key, after_prefix,
  validate_api_key,
}
use marketplace_server.Tokens.Credentials.{TokenCredentialRecord, is_expired, TokenMetadataRecord}
use marketplace_server.Tokens.Authenticator.{
  CredentialStore, GitOperation, authenticate_git_pat, authenticate, check_record, finish,
  principal_for_pat, pat_scopes, accepts_operation, is_git_write,
}
use marketplace_server.Tokens.Grants.{authenticate_git_pat_lem}
use marketplace_server.Examples.Engines.{plain_platform}
use marketplace_server.Auth.Principal
use marketplace_server.Auth.Principal.{Principal, new_user_principal, pat}
use marketplace_server.Base.{
  List, String, ℕ, ◌≡◌, none, ok, refl, some, ◌∷◌, [], suc, true, is_some, false,
}
use marketplace_server.Platform.{Platform}
use marketplace_server.Identity.Text.{normalize_username}
use marketplace_server.Auth.Scope.{clone_scopes}
use marketplace_server.Identity.Model.{is_active, is_supported_preset, UserStatus, git_write}
use marketplace_server.Auth.Action.{plugin_write}

abbrev zeros : List ℕ
zeros =
    0 ∷ 0 ∷ 0 ∷ 0 ∷ 0 ∷ 0 ∷ 0 ∷ 0 ∷ 0 ∷ 0 ∷ 0 ∷ 0 ∷ 0 ∷ 0 ∷ 0 ∷ 0 ∷ 0 ∷ 0 ∷ 0 ∷ 0 ∷ 0 ∷ 0 ∷ 0 ∷ 0
    ∷ 0 ∷ 0 ∷ 0 ∷ 0 ∷ 0 ∷ 0 ∷ 0 ∷ 0 ∷ []

-- Every digest is 32 zeros, and every text decodes to it.
abbrev zero_platform : Platform
zero_platform = record plain_platform {
  base64_decode = λ s. some zeros;
  base64_encode = λ b. "AAA";
  hmac_sha256 = λ k s. zeros;
}

zero-KeepsDigests : KeepsDigests zero_platform
zero-KeepsDigests = record { decoded = λ k s. refl; size = λ k s. refl }

abbrev key : String
key = "mpsk_AAAAAAAAAAAAAAAAAAAAAAAAAAAAAAAAAAAAAAAAAAA"

key_index : index_api_key zero_platform key zeros ≡ ok "mpsk_hmac_sha256_AAA"
unfolding index_api_key validate_api_key after_prefix
key_index = refl

validate-index_api_key_example : validate_api_key_index zero_platform "mpsk_hmac_sha256_AAA" ≡ none
validate-index_api_key_example =
    validate-index_api_key zero_platform key zeros "mpsk_hmac_sha256_AAA" zero-KeepsDigests
      key_index

abbrev credential : TokenCredentialRecord
credential = record {
  id = "tok";
  user_id = "u1";
  username = "ann";
  user_status = UserStatus.active;
  preset = git_write;
  expires_at = some 50;
  revoked_at = none;
}

-- The store counts the uses.
abbrev one_token : CredentialStore ℕ
one_token = record {
  find_token_credential_by_secret_hmac = λ index s. ok credential;
  touch_token = λ id now s. (none, suc s);
}

abbrev ann : Principal
ann = record {
  kind = Principal.user;
  user_id = "u1";
  username = "ann";
  credential = pat;
  scopes = clone_scopes (pat_scopes git_write);
}

let_in :
    authenticate_git_pat zero_platform zeros one_token "ann" key GitOperation.write 9 10 0
    ≡ (ok ann, 1)
unfolding authenticate_git_pat authenticate check_record finish principal_for_pat accepts_operation
    new_user_principal index_api_key validate_api_key after_prefix normalize_username
    is_supported_preset
let_in = refl

authenticate_git_pat_lem_example :
    (index : String) × (r : TokenCredentialRecord) × (index_api_key zero_platform key zeros
      ≡ ok index)
    × (one_token.find_token_credential_by_secret_hmac index 0 ≡ ok r)
    × (is_active r.user_status ≡ true)
    × (r.username ≡ normalize_username zero_platform "ann")
    × (is_some r.revoked_at ≡ false)
    × (is_expired r.expires_at 9 ≡ false)
    × (accepts_operation GitOperation.write r.preset ≡ true)
    × (one_token.touch_token r.id 10 0 ≡ (none, 1))
    × (ann.user_id ≡ r.user_id)
    × (Principal.allows ann plugin_write ≡ is_git_write r.preset)
authenticate_git_pat_lem_example =
    authenticate_git_pat_lem zero_platform zeros one_token "ann" key GitOperation.write 9 10 0 1 ann
      let_in

abbrev listed_token : TokenMetadataRecord
listed_token = record {
  id = "tok";
  user_id = "u1";
  name = "ci";
  preset = git_write;
  expires_at = some 50;
  last_used_at = none;
  revoked_at = none;
  created_at = 1;
}
