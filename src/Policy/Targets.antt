-- ===== src/Policy/Targets.antt =====
-- What each action is on, described apart from the table `supportsResource` of
-- mod/backend/domain/authorization/policy.go, which names the resources that an action supports.
use marketplace_server.Base.{
  ◌≡◌, ◌⊎◌, ◌↔◌, true, false, is_empty, String, eq_iff, inl, inr, arith, Bool-cases, ◌||◌,
}
use marketplace_server.Auth.Action.{
  Action, ResourceRef, ResourceType, type_spelling, same_type, marketplace_read, plugin_create,
  plugin_list, plugin_read, plugin_write, plugin_archive, plugin_publish, token_read, token_write,
  user_list, user_create, team_create, team_list, team_read, team_settings_write, team_members_read,
  team_members_manage, team_invitations_read, team_invitations_manage, team_invitation_respond,
  user_read, user_update, user_disable, user_enable, user_admin_grant, user_admin_revoke,
}
use marketplace_server.Policy.Rules.{supports_resource, namespace_only, qualified, identified}

-- The reference names a resource of the kind, by an identifier of its own.
abbrev pub Names : String → ResourceRef → Type 0
Names kind r = (type_spelling r.type ≡ kind) × (is_empty r.id ≡ false)

abbrev pub NamesInNamespace : String → ResourceRef → Type 0
NamesInNamespace kind r = Names kind r × (is_empty r.namespace_id ≡ false)

-- A namespace stands in no other one.
abbrev pub NamesNamespace : ResourceRef → Type 0
NamesNamespace r = Names "namespace" r × (is_empty r.namespace_id ≡ true)

abbrev pub NamesKind : String → ResourceRef → Type 0
NamesKind kind r = type_spelling r.type ≡ kind

-- Plugins, members and invitations are named within their namespace, users by themselves, and the
-- actions that make or list something name where: a namespace, or the collection of the users. Tokens
-- and the marketplace of a user are asked for by kind alone.
abbrev pub Targets : Action → ResourceRef → Type 0
Targets plugin_read r = NamesInNamespace "plugin" r
Targets plugin_write r = NamesInNamespace "plugin" r
Targets plugin_archive r = NamesInNamespace "plugin" r
Targets plugin_publish r = NamesInNamespace "plugin" r
Targets team_members_manage r = NamesInNamespace "team_membership" r
Targets team_invitation_respond r = NamesInNamespace "team_invitation" r
Targets marketplace_read r = NamesKind "marketplace" r ⊎ NamesKind "user" r
Targets token_read r = NamesKind "token" r ⊎ NamesKind "token_collection" r
Targets token_write r = NamesKind "token" r ⊎ NamesKind "token_collection" r
Targets user_list r = Names "user_collection" r
Targets user_create r = Names "user_collection" r
Targets user_read r = Names "user" r
Targets user_update r = Names "user" r
Targets user_disable r = Names "user" r
Targets user_enable r = Names "user" r
Targets user_admin_grant r = Names "user" r
Targets user_admin_revoke r = Names "user" r
Targets (Action.unlisted _) r = ⊥
Targets plugin_create r = NamesNamespace r
Targets plugin_list r = NamesNamespace r
Targets team_create r = NamesNamespace r
Targets team_list r = NamesNamespace r
Targets team_read r = NamesNamespace r
Targets team_settings_write r = NamesNamespace r
Targets team_members_read r = NamesNamespace r
Targets team_invitations_read r = NamesNamespace r
Targets team_invitations_manage r = NamesNamespace r

same_type-NamesKind :
    (t : ResourceType) (r : ResourceRef)
    → (same_type r.type t ≡ true) ↔ NamesKind (type_spelling t) r
same_type-NamesKind t r = eq_iff (type_spelling r.type) (type_spelling t)

namespace_only-NamesNamespace : (r : ResourceRef) → (namespace_only r ≡ true) ↔ NamesNamespace r
namespace_only-NamesNamespace r =
    let (to, from) = same_type-NamesKind ResourceType.namespace r in
    (
      λ h. ((to (ground arith), ground arith), ground arith),
      λ h. let kind = from h.0.0 in let id = h.0.1 in let outside = h.1 in ground arith,
    )

qualified-NamesInNamespace :
    (t : ResourceType) (r : ResourceRef)
    → (qualified t r ≡ true) ↔ NamesInNamespace (type_spelling t) r
qualified-NamesInNamespace t r =
    let (to, from) = same_type-NamesKind t r in
    (
      λ h. ((to (ground arith), ground arith), ground arith),
      λ h. let kind = from h.0.0 in let id = h.0.1 in let inside = h.1 in ground arith,
    )

identified-Names :
    (t : ResourceType) (r : ResourceRef) → (identified t r ≡ true) ↔ Names (type_spelling t) r
identified-Names t r =
    let (to, from) = same_type-NamesKind t r in
    (
      λ h. (to (ground arith), ground arith),
      λ h. let kind = from h.0 in let id = h.1 in ground arith,
    )

either-NamesKind :
    (t u : ResourceType) (r : ResourceRef)
    → ((same_type r.type t || same_type r.type u) ≡ true)
      ↔ (NamesKind (type_spelling t) r ⊎ NamesKind (type_spelling u) r)
either-NamesKind t u r =
    let (to, from) = same_type-NamesKind t r in
    let (to_other, from_other) = same_type-NamesKind u r in
    (
      λ h. elim (Bool-cases (same_type r.type t)) [
        | inl q ↦ inl (to q)
        | inr q ↦ inr (to_other (ground arith))
      ],
      λ h. elim h [
        | inl k ↦ (let q = from k in ground arith)
        | inr k ↦ (let q = from_other k in ground arith)
      ],
    )

-- The table of the code supports an action on a resource exactly where the resource is one that the
-- action is on.
pub supports_resource-iff-Targets :
    (a : Action) (r : ResourceRef) → (supports_resource a r ≡ true) ↔ Targets a r
unfolding supports_resource
supports_resource-iff-Targets plugin_read r = qualified-NamesInNamespace ResourceType.plugin r
supports_resource-iff-Targets plugin_write r = qualified-NamesInNamespace ResourceType.plugin r
supports_resource-iff-Targets plugin_archive r = qualified-NamesInNamespace ResourceType.plugin r
supports_resource-iff-Targets plugin_publish r = qualified-NamesInNamespace ResourceType.plugin r
supports_resource-iff-Targets team_members_manage r =
    qualified-NamesInNamespace ResourceType.team_membership r
supports_resource-iff-Targets team_invitation_respond r =
    qualified-NamesInNamespace ResourceType.team_invitation r
supports_resource-iff-Targets marketplace_read r =
    either-NamesKind ResourceType.marketplace ResourceType.user r
supports_resource-iff-Targets token_read r =
    either-NamesKind ResourceType.token ResourceType.token_collection r
supports_resource-iff-Targets token_write r =
    either-NamesKind ResourceType.token ResourceType.token_collection r
supports_resource-iff-Targets user_list r = identified-Names ResourceType.user_collection r
supports_resource-iff-Targets user_create r = identified-Names ResourceType.user_collection r
supports_resource-iff-Targets user_read r = identified-Names ResourceType.user r
supports_resource-iff-Targets user_update r = identified-Names ResourceType.user r
supports_resource-iff-Targets user_disable r = identified-Names ResourceType.user r
supports_resource-iff-Targets user_enable r = identified-Names ResourceType.user r
supports_resource-iff-Targets user_admin_grant r = identified-Names ResourceType.user r
supports_resource-iff-Targets user_admin_revoke r = identified-Names ResourceType.user r
supports_resource-iff-Targets (Action.unlisted x) r = (λ h. cc, λ h. absurd h)
supports_resource-iff-Targets _ r = namespace_only-NamesNamespace r
