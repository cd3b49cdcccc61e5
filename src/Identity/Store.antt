-- ===== src/Identity/Store.antt =====
-- The identity tables behind `Repository` of mod/backend/domain/identity/dao, and the statements of
-- its methods. `view` is what the tables hold; a theorem about a method is about its view.
pub use marketplace_server.Database.Tables.{Tables, Rows, view, Slot}
use marketplace_server.Sql.{Engine}
use marketplace_server.Identity.Model.{
  User, Namespace, UserGroupMembership, TeamMembership, TeamInvitation, PersonalAccessToken,
  StoreError,
}
use marketplace_server.Database.Tx.{Tx, pure, raise}
use marketplace_server.Base.{
  Bool, List, Option, String, ◌==◌, ◌∷◌, ◌&&◌, ◌||◌, false, refl, some, none, [],
}

-- The unique indexes that the struct tags of the model declare.
abbrev pub same_email : Option String → Option String → Bool
same_email none _ = false
same_email (some a) o = elim o [ none ↦ false | some b ↦ a == b ]

abbrev pub clashes_user : User → User → Bool
clashes_user u v = v.id == u.id || v.username == u.username || same_email v.email u.email

abbrev pub same_owner : Option String → Option String → Bool
same_owner none _ = false
same_owner (some a) o = elim o [ none ↦ false | some b ↦ a == b ]

abbrev pub clashes_namespace : Namespace → Namespace → Bool
clashes_namespace n o =
    o.id == n.id || o.slug == n.slug || same_owner o.owner_user_id n.owner_user_id

abbrev pub same_group_membership : UserGroupMembership → UserGroupMembership → Bool
same_group_membership m n = n.user_id == m.user_id && n.group_id == m.group_id

abbrev pub same_team_membership : TeamMembership → TeamMembership → Bool
same_team_membership m n = n.namespace_id == m.namespace_id && n.user_id == m.user_id

-- gorm's `Take`: the first row found, or else the error that the method makes of
-- `gorm.ErrRecordNotFound`.
abbrev pub first_or : {S A : Type 0} → StoreError → List A → Tx S A
first_or x [] = raise x
first_or x (a ∷ _) = pure a

module _ (e : Engine) where
  abbrev pub users : Slot e User
  users = record {
    get = λ s. s.users;
    put = λ s t. record s { users = t };
    rows = λ r. r.users;
    set = λ r l. record r { users = l };
    view-get = λ s. refl;
    view-put = λ s t. refl;
  }

  abbrev pub namespaces : Slot e Namespace
  namespaces = record {
    get = λ s. s.namespaces;
    put = λ s t. record s { namespaces = t };
    rows = λ r. r.namespaces;
    set = λ r l. record r { namespaces = l };
    view-get = λ s. refl;
    view-put = λ s t. refl;
  }

  abbrev pub group_memberships : Slot e UserGroupMembership
  group_memberships = record {
    get = λ s. s.group_memberships;
    put = λ s t. record s { group_memberships = t };
    rows = λ r. r.group_memberships;
    set = λ r l. record r { group_memberships = l };
    view-get = λ s. refl;
    view-put = λ s t. refl;
  }

  abbrev pub team_memberships : Slot e TeamMembership
  team_memberships = record {
    get = λ s. s.team_memberships;
    put = λ s t. record s { team_memberships = t };
    rows = λ r. r.team_memberships;
    set = λ r l. record r { team_memberships = l };
    view-get = λ s. refl;
    view-put = λ s t. refl;
  }

  abbrev pub team_invitations : Slot e TeamInvitation
  team_invitations = record {
    get = λ s. s.team_invitations;
    put = λ s t. record s { team_invitations = t };
    rows = λ r. r.team_invitations;
    set = λ r l. record r { team_invitations = l };
    view-get = λ s. refl;
    view-put = λ s t. refl;
  }

  abbrev pub tokens : Slot e PersonalAccessToken
  tokens = record {
    get = λ s. s.tokens;
    put = λ s t. record s { tokens = t };
    rows = λ r. r.tokens;
    set = λ r l. record r { tokens = l };
    view-get = λ s. refl;
    view-put = λ s t. refl;
  }
