-- ===== src/Examples/Admins.antt =====
-- The administrators of a small database: ann is one, and bob is none.
use marketplace_server.Examples.Engines.{list_engine, empty_tables}
use marketplace_server.Identity.AdminRepository.{
  set_system_admin, change_admin, grant, is_admin_membership, admin_membership, count_active_admins,
}
use marketplace_server.Identity.AdminEffects.{set_system_admin-effect}
use marketplace_server.Base.{String, any, ◌∷◌, [], none, true, false, ◌≡◌, some, refl}
use marketplace_server.Identity.Store.{Tables, view}
use marketplace_server.Database.Tx.{transaction, ◌>>=◌}
use marketplace_server.Identity.Model.{User, UserStatus, conflict}
use marketplace_server.Identity.Lock.{lock_system_administrators, Dialect, advisory_lock}
use marketplace_server.Database.Statement.{select, insert_ignore}
use marketplace_server.Identity.Hooks.{user_group_membership_before_write}

abbrev registered : String → User
registered id = record {
  id = id;
  username = id;
  email = none;
  display_name = id;
  status = UserStatus.active;
  password_hash = "";
  created_at = 1;
  updated_at = 1;
}

abbrev administered : Tables list_engine
administered = record empty_tables {
  users = registered "ann" ∷ registered "bob" ∷ [];
  group_memberships = admin_membership "ann" 1 ∷ [];
}

bob_granted : (set_system_admin Dialect.postgres "bob" true 5 administered).0 ≡ none
unfolding set_system_admin transaction ◌>>=◌ lock_system_administrators advisory_lock select
    change_admin grant user_group_membership_before_write insert_ignore
bob_granted = refl

-- The last active administrator keeps the role.
last_kept : (set_system_admin Dialect.postgres "ann" false 5 administered).0 ≡ some conflict
unfolding set_system_admin transaction ◌>>=◌ lock_system_administrators advisory_lock select
    change_admin count_active_admins
last_kept = refl

-- A user without the role cannot have it taken away while there is one active administrator.
bob_not_revoked : (set_system_admin Dialect.postgres "bob" false 5 administered).0 ≡ some conflict
unfolding set_system_admin transaction ◌>>=◌ lock_system_administrators advisory_lock select
    change_admin count_active_admins
bob_not_revoked = refl

set_system_admin-effect_example :
    any
      (is_admin_membership "bob")
      (view list_engine
        (set_system_admin Dialect.postgres "bob" true 5 administered).1).group_memberships
    ≡ true
set_system_admin-effect_example =
    set_system_admin-effect Dialect.postgres "bob" true 5 administered bob_granted
