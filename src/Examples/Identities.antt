-- ===== src/Examples/Identities.antt =====
-- The identity repository on a small database: one team with two members.
use marketplace_server.Examples.Engines.{list_engine, plain_platform, empty_tables}
use marketplace_server.Base.{
  String, ◌∷◌, [], none, ◌≤◌, arith, eq_iff, ◌≡◌, some, refl, List, true, ◌||◌, ◌↔◌,
}
use marketplace_server.Identity.Store.{Tables, view}
use marketplace_server.Identity.TeamOwners.{UniqueMembers, has_owner}
use marketplace_server.Identity.TeamRepository.{
  put_team_member, is_member, put_found, change_role, guard_owner, ensure_other_owner,
}
use marketplace_server.Identity.Model.{User, TeamMembership, UserStatus, conflict}
use marketplace_server.Role.{TeamRole, owner, admin}
use marketplace_server.Sql.{count}
use marketplace_server.Identity.Lock.{lock_team_memberships, Dialect}
use marketplace_server.Database.Tx.{transaction, ◌>>=◌}
use marketplace_server.Database.Statement.{select, update, select_count}
use marketplace_server.Identity.Slug.{
  canonical_identity_slug, identity_slug, is_nil, is_word_char, is_hyphen,
}
use marketplace_server.Identity.Text.{KeepsSlugChars, normalize_username, normalize-slug}
use marketplace_server.Identity.MemberKey.{
  MemberCommand, run_member_commands, member_commands-has_owner, put, remove,
}
use marketplace_server.Identity.Slug.Agree.{
  IsSlug, identity_slug-eq-canonical, canonical-iff-IsSlug,
}

abbrev active_user : String → User
active_user id = record {
  id = id;
  username = id;
  email = none;
  display_name = id;
  status = UserStatus.active;
  password_hash = "";
  created_at = 1;
  updated_at = 1;
}

abbrev member : String → TeamRole → TeamMembership
member user_id role = record {
  namespace_id = "team";
  user_id = user_id;
  role = role;
  created_at = 1;
  updated_at = 1;
}

abbrev small : Tables list_engine
small = record empty_tables {
  users = active_user "ann" ∷ active_user "bob" ∷ [];
  team_memberships = member "ann" owner ∷ member "bob" admin ∷ [];
}

unique_in_small :
    (namespace_id user_id : String)
    → count (is_member namespace_id user_id) small.team_memberships ≤ 1
unique_in_small namespace_id user_id = ground (
  arith,
  eq_iff "ann" user_id,
  eq_iff "bob" user_id,
  eq_iff "team" namespace_id,
  eq_iff "ann" "bob",
)

small-UniqueMembers : UniqueMembers (view list_engine small)
small-UniqueMembers = record { at_most_one = unique_in_small }

put_last_owner :
    (put_team_member plain_platform Dialect.sqlite "team" "ann" admin 5 small).0 ≡ some conflict
unfolding put_team_member lock_team_memberships put_found change_role guard_owner ensure_other_owner
    transaction ◌>>=◌ select update select_count
put_last_owner = refl

abbrev busy : List MemberCommand
busy =
    put "team" "ann" admin 5
    ∷ remove "team" "ann"
    ∷ put "team" "bob" owner 6
    ∷ remove "team" "ann"
    ∷ []

member_commands-has_owner_example :
    (has_owner "team"
        (view list_engine (run_member_commands plain_platform Dialect.sqlite busy small))
      ≡ true)
    × UniqueMembers
        (view list_engine (run_member_commands plain_platform Dialect.sqlite busy small))
member_commands-has_owner_example =
    member_commands-has_owner plain_platform Dialect.sqlite busy small "team" small-UniqueMembers
      refl

identity_slug-eq-canonical_example :
    identity_slug "my-team" ≡ (is_nil "my-team" || canonical_identity_slug "my-team")
identity_slug-eq-canonical_example = identity_slug-eq-canonical "my-team"

canonical-iff-IsSlug_example : (canonical_identity_slug "my--team" ≡ true) ↔ IsSlug "my--team"
canonical-iff-IsSlug_example = canonical-iff-IsSlug "my--team"

plain-KeepsSlugChars : KeepsSlugChars plain_platform
plain-KeepsSlugChars = record { kept = λ c h. refl }

team_slug : canonical_identity_slug "my-team" ≡ true
unfolding canonical_identity_slug is_word_char is_hyphen
team_slug = refl

normalize-slug_example : normalize_username plain_platform "my-team" ≡ "my-team"
normalize-slug_example = normalize-slug plain_platform plain-KeepsSlugChars "my-team" team_slug
