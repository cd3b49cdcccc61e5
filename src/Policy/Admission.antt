-- ===== src/Policy/Admission.antt =====
-- mod/backend/domain/authorization/policy.go: `Authorize` as a whole against the matrix.
use marketplace_server.Base.{
  ◌≡◌, arith, true, refl, some, ◌⊎◌, is_empty, false, Option-cases, inl, ◌↔◌, inr, ap,
}
use marketplace_server.Auth.Action.{Action, plugin_read, team_read, ResourceRef, same_action}
use marketplace_server.Policy.Rules.{
  is_known_action, supports_resource, allows_anonymous_plugin_read,
}
use marketplace_server.Policy.Targets.{Targets, supports_resource-iff-Targets}
use marketplace_server.Policy.Authorize.{IdentityState, allowed, IdentityStateReader, authorize}
use marketplace_server.Policy.Matrix.{IsPublicRead, Entitled}
use marketplace_server.Auth.Principal.{Principal, anonymous, allows, PrincipalKind, user}
use marketplace_server.Policy.Exact.{
  authorize_user-Entitled, Entitled-authorize_user, allows_public-IsPublicRead,
  IsPublicRead-allows_public,
}

-- Whom the policy admits: for an action on a resource that the action is on, strangers to public
-- plugins, and users whose credential covers the action and whose current state entitles them to it.
abbrev pub Permits : IdentityStateReader → Principal → Action → ResourceRef → Type 0
Permits read p a r =
    Targets a r
    × (((p.kind ≡ anonymous)
          × (a ≡ plugin_read)
          × ((s : IdentityState) × (read p r ≡ some s) × IsPublicRead s.plugin))
        ⊎ ((p.kind ≡ user)
            × (is_empty p.user_id ≡ false)
            × (allows p a ≡ true)
            × ((s : IdentityState) × (read p r ≡ some s) × (s.active ≡ true) × Entitled a s)))

known_of_supported :
    (a : Action) (r : ResourceRef) → supports_resource a r ≡ true → is_known_action a ≡ true
unfolding supports_resource is_known_action
known_of_supported team_read r h = refl
known_of_supported (Action.unlisted x) r h = cc
known_of_supported _ r h = refl

is_plugin_read :
    (a : Action) → is_known_action a ≡ true → same_action a plugin_read ≡ true → a ≡ plugin_read
unfolding is_known_action
is_plugin_read plugin_read k h = refl
is_plugin_read _ k h = cc

-- What the policy asks before it reads any state.
passed :
    (read : IdentityStateReader) (p : Principal) (a : Action) (r : ResourceRef)
    → authorize (some read) p a r ≡ allowed
    → (is_known_action a ≡ true) × (supports_resource a r ≡ true)
unfolding authorize
passed read p a r h = ground arith

user-Permits :
    (read : IdentityStateReader) (p : Principal) (a : Action) (r : ResourceRef)
    → authorize (some read) p a r ≡ allowed
    → p.kind ≡ user
    → Permits read p a r
unfolding authorize
user-Permits read p a r h k =
    let (known, supported) = passed read p a r h in
    elim (Option-cases (read p r)) [
      | inl e ↦ ground arith
      | inr (s, e) ↦
          (let entitled = authorize_user-Entitled a s known (ground arith) in
            (
              (supports_resource-iff-Targets a r).0 supported,
              inr (k, ground arith, ground arith, (s, e, entitled.0, entitled.1)),
            ))
    ]

anonymous-Permits :
    (read : IdentityStateReader) (p : Principal) (a : Action) (r : ResourceRef)
    → authorize (some read) p a r ≡ allowed
    → p.kind ≡ anonymous
    → Permits read p a r
unfolding authorize allows_anonymous_plugin_read
anonymous-Permits read p a r h k =
    let (known, supported) = passed read p a r h in
    elim (Option-cases (read p r)) [
      | inl e ↦ ground arith
      | inr (s, e) ↦ (
        (supports_resource-iff-Targets a r).0 supported,
        inl (
          k,
          is_plugin_read a known (ground arith),
          (s, e, allows_public-IsPublicRead s.plugin (ground arith)),
        ),
      )
    ]

kind-cases : (k : PrincipalKind) → (k ≡ anonymous) ⊎ (k ≡ user)
kind-cases anonymous = inl refl
kind-cases user = inr refl

-- The policy admits a request only where the matrix permits it.
pub authorize-Permits :
    (read : IdentityStateReader) (p : Principal) (a : Action) (r : ResourceRef)
    → authorize (some read) p a r ≡ allowed
    → Permits read p a r
authorize-Permits read p a r h = elim (kind-cases p.kind) [
  | inl k ↦ anonymous-Permits read p a r h k
  | inr k ↦ user-Permits read p a r h k
]

-- The policy admits every request that the matrix permits.
pub Permits-authorize :
    (read : IdentityStateReader) (p : Principal) (a : Action) (r : ResourceRef)
    → Permits read p a r
    → authorize (some read) p a r ≡ allowed
unfolding authorize allows_anonymous_plugin_read
Permits-authorize read p a r (target, inl (k, e, (s, found, public))) =
    let supported = (supports_resource-iff-Targets a r).1 target in
    ground (
      arith,
      known_of_supported a r,
      IsPublicRead-allows_public s.plugin public,
      ap (λ b. same_action b plugin_read) e,
    )
Permits-authorize read p a r (target, inr (k, named, scope, (s, found, alive, entitled))) =
    let supported = (supports_resource-iff-Targets a r).1 target in
    ground (
      arith,
      Entitled-authorize_user a s (known_of_supported a r supported) alive entitled,
      known_of_supported a r,
    )

-- The policy admits a request exactly when the matrix permits it: the request is on a resource of the
-- kind that the action is on, and is a stranger's, to read a public plugin, or that of an active user
-- whose credential covers the action and whom the state entitles to it. The matrix is the code's: only
-- the owner of a personal namespace and system administrators read a marketplace, whatever the role
-- in a team.
pub authorize-iff-Permits :
    (read : IdentityStateReader) (p : Principal) (a : Action) (r : ResourceRef)
    → (authorize (some read) p a r ≡ allowed) ↔ Permits read p a r
authorize-iff-Permits read p a r = (authorize-Permits read p a r, Permits-authorize read p a r)
