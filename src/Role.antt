-- ===== src/Role.antt =====
-- The roles of a team's members: the constants of mod/backend/domain/identity/model/team.go, which
-- the policy spells out again. `no_role` is the empty string, `unlisted` any other string.
use marketplace_server.Base.{String, Bool, true, false, ◌==◌}

pub data TeamRole : Type 0 where
  owner admin maintainer developer viewer no_role : TeamRole
  unlisted : String → TeamRole

-- The string that each role is; Go compares roles by it.
abbrev pub role_spelling : TeamRole → String
role_spelling owner = "owner"
role_spelling admin = "admin"
role_spelling maintainer = "maintainer"
role_spelling developer = "developer"
role_spelling viewer = "viewer"
role_spelling no_role = ""
role_spelling (TeamRole.unlisted s) = s

abbrev pub same_role : TeamRole → TeamRole → Bool
same_role a b = role_spelling a == role_spelling b

abbrev pub is_owner : TeamRole → Bool
is_owner owner = true
is_owner _ = false

abbrev pub is_admin : TeamRole → Bool
is_admin admin = true
is_admin _ = false

abbrev pub is_no_role : TeamRole → Bool
is_no_role no_role = true
is_no_role _ = false
