-- ===== src/Tokens/Grants.antt =====
-- What a principal that authenticated by a personal access token may do.
use marketplace_server.Tokens.Authenticator.{
  authenticate_git_pat, authenticate, check_record, finish, principal_for_pat, accepts_operation,
  GitOperation, CredentialStore, is_git_write, pat_scopes,
}
use marketplace_server.Tokens.ApiKey.{index_api_key}
use marketplace_server.Auth.Principal
use marketplace_server.Auth.Scope
use marketplace_server.Platform.{Platform}
use marketplace_server.Base.{
  List, ℕ, String, ◌≡◌, ok, is_some, true, false, none, Result-cases, inl, arith, ◌∙◌, ap, eq_iff,
  inr, refl,
}
use marketplace_server.Auth.Principal.{Principal, new_user_principal, pat, made}
use marketplace_server.Tokens.Credentials.{TokenCredentialRecord, is_expired}
use marketplace_server.Identity.Model.{is_active, TokenPreset, git_write, git_clone, sub_read}
use marketplace_server.Identity.Text.{normalize_username}
use marketplace_server.Auth.Action.{plugin_write}
use marketplace_server.Auth.Scope.{restricted_scopes}

allows-pat_scopes :
    (preset : TokenPreset) → Scope.allows (pat_scopes preset) plugin_write ≡ is_git_write preset
unfolding pat_scopes Scope.allows restricted_scopes
allows-pat_scopes git_write = refl
allows-pat_scopes git_clone = refl
allows-pat_scopes sub_read = refl
allows-pat_scopes (TokenPreset.unlisted _) = refl

principal_for_pat_lem :
    (r : TokenCredentialRecord) (p : Principal)
    → principal_for_pat r ≡ ok p
    → (p.user_id ≡ r.user_id) × (Principal.allows p plugin_write ≡ is_git_write r.preset)
unfolding principal_for_pat
principal_for_pat_lem r p h =
    let made_p : new_user_principal r.user_id r.username pat (pat_scopes r.preset) ≡ made p =
      ground arith in
    let (_, same, _, _, _, _, g) =
      Principal.new_user_principal_lem r.user_id r.username pat (pat_scopes r.preset) p made_p in
    (same, g plugin_write ∙ allows-pat_scopes r.preset)

module _ (env : Platform) (pepper : List ℕ) {S : Type 0} (repository : CredentialStore S) where
  authenticate_lem :
      (username plaintext : String) (now : ℕ) (s : S) (r : TokenCredentialRecord)
      → authenticate env pepper repository username plaintext now s ≡ ok r
      → (index : String) × (index_api_key env plaintext pepper ≡ ok index)
        × (repository.find_token_credential_by_secret_hmac index s ≡ ok r)
        × (is_active r.user_status ≡ true)
        × (r.username ≡ normalize_username env username)
        × (is_some r.revoked_at ≡ false)
        × (is_expired r.expires_at now ≡ false)
  unfolding authenticate check_record
  authenticate_lem username plaintext now s r h =
      elim (Result-cases (index_api_key env plaintext pepper)) [
        | inl (index, x) ↦
            elim (Result-cases (repository.find_token_credential_by_secret_hmac index s)) [
              | inl (q, y) ↦
                  (let same : q ≡ r = ground arith in
                    (
                      index,
                      x,
                      y ∙ ap ok same,
                      ground arith,
                      (eq_iff r.username (normalize_username env username)).0 (ground arith),
                      ground arith,
                      ground arith,
                    ))
              | inr (z, y) ↦ ground arith
            ]
        | inr (z, x) ↦ ground arith
      ]

  -- A Git request that is let in presented a key with an index, whose stored token belongs to an
  -- active user with the given name, in the name's normal form, is neither revoked nor expired, and
  -- has a preset for the operation; the use was recorded; and the principal, with the identity of
  -- that user, may write plugins exactly where the preset is git-write.
  pub authenticate_git_pat_lem :
      (username plaintext : String) (operation : GitOperation) (now used : ℕ) (s t : S)
      (p : Principal)
      → authenticate_git_pat env pepper repository username plaintext operation now used s
        ≡ (ok p, t)
      → (index : String) × (r : TokenCredentialRecord) × (index_api_key env plaintext pepper
          ≡ ok index)
        × (repository.find_token_credential_by_secret_hmac index s ≡ ok r)
        × (is_active r.user_status ≡ true)
        × (r.username ≡ normalize_username env username)
        × (is_some r.revoked_at ≡ false)
        × (is_expired r.expires_at now ≡ false)
        × (accepts_operation operation r.preset ≡ true)
        × (repository.touch_token r.id used s ≡ (none, t))
        × (p.user_id ≡ r.user_id)
        × (Principal.allows p plugin_write ≡ is_git_write r.preset)
  unfolding authenticate_git_pat finish
  authenticate_git_pat_lem username plaintext operation now used s t p h =
      elim (Result-cases (authenticate env pepper repository username plaintext now s)) [
        | inl (r, x) ↦ elim (Result-cases (principal_for_pat r)) [
          | inl (q, y) ↦
              (let same : q ≡ p = ground arith in
                let (index, a, b, c, d, e, f) = authenticate_lem username plaintext now s r x in
                let (g, i) = principal_for_pat_lem r p (y ∙ ap ok same) in
                (index, r, a, b, c, d, e, f, ground arith, ground arith, g, i))
          | inr (z, y) ↦ ground arith
        ]
        | inr (z, x) ↦ ground arith
      ]
