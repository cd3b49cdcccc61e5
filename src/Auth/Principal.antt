-- ===== src/Auth/Principal.antt =====
-- pkg/auth/contracts.go: `Principal`, an anonymous or a user identity.
use marketplace_server.Base.{
  String, Bool, true, false, ◌&&◌, ◌≡◌, [], is_empty, if◌then◌else◌, arith,
}
use marketplace_server.Auth.Action.{Action}
use marketplace_server.Auth.Scope.{
  ScopeSet, unrestricted_scopes, restricted_scopes, clone_scopes, allows-clone_scopes,
}
use marketplace_server.Auth.Scope

pub data CredentialKind : Type 0 where
  no_credential account_password jwt pat : CredentialKind
  unlisted : String → CredentialKind

pub data PrincipalKind : Type 0 where
  anonymous user : PrincipalKind

pub record Principal : Type 0 where
  pub kind : PrincipalKind
  pub user_id : String
  pub username : String
  pub credential : CredentialKind
  pub scopes : ScopeSet

unfoldable pub anonymous_principal : Principal
anonymous_principal = record {
  kind = anonymous;
  user_id = "";
  username = "";
  credential = no_credential;
  scopes = restricted_scopes [];
}

pub data PrincipalError : Type 0 where
  user_id_required username_required invalid_credential_kind : PrincipalError

pub data NewPrincipal : Type 0 where
  made : Principal → NewPrincipal
  failed : PrincipalError → NewPrincipal

abbrev pub is_user_credential : CredentialKind → Bool
is_user_credential account_password = true
is_user_credential jwt = true
is_user_credential pat = true
is_user_credential _ = false

unfoldable pub new_user_principal : String → String → CredentialKind → ScopeSet → NewPrincipal
new_user_principal user_id username credential scopes =
    if is_empty user_id
    then failed user_id_required
    else if is_empty username
    then failed username_required
    else if is_user_credential credential
    then made (record {
      kind = user;
      user_id = user_id;
      username = username;
      credential = credential;
      scopes = clone_scopes scopes;
    })
    else failed invalid_credential_kind

abbrev pub is_anonymous : Principal → Bool
is_anonymous p = elim p.kind [ anonymous ↦ true | user ↦ false ]

abbrev pub is_user : Principal → Bool
is_user p = elim p.kind [ anonymous ↦ false | user ↦ true ]

abbrev pub is_jwt : CredentialKind → Bool
is_jwt jwt = true
is_jwt _ = false

unfoldable pub allows : Principal → Action → Bool
allows p a = is_user p && Scope.allows p.scopes a

-- A principal that is made is a user with the given identifier, which is not empty, the given name,
-- and the given credential, which is one of a user, and it allows what the given scopes allow.
pub new_user_principal_lem :
    (user_id username : String) (kind : CredentialKind) (scopes : ScopeSet) (p : Principal)
    → new_user_principal user_id username kind scopes ≡ made p
    → (p.kind ≡ user)
      × (p.user_id ≡ user_id)
      × (p.username ≡ username)
      × (p.credential ≡ kind)
      × (is_empty user_id ≡ false)
      × (is_user_credential kind ≡ true)
      × ((a : Action) → allows p a ≡ Scope.allows scopes a)
unfolding new_user_principal allows
new_user_principal_lem user_id username kind scopes p h = (
  ground arith,
  ground arith,
  ground arith,
  ground arith,
  ground arith,
  ground arith,
  λ a. ground (arith, allows-clone_scopes scopes a),
)
