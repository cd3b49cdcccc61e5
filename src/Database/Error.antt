-- ===== src/Database/Error.antt =====
-- The errors that the data-access packages of mod/backend/domain return: Go's `error` is an open type,
-- so the sentinels of identity/model, identity/dao, plugin and plugin/receive are one type here.
use marketplace_server.Base.{String, Option, Bool, none, some, true, false}

-- The sentinel errors of the packages behind the database; `database` is an error of the driver or
-- of gorm, wrapped or not.
pub data StoreError : Type 0 where
  immutable_system_group persisted_default_membership invalid_token_preset : StoreError
  invalid_personal_access_token invalid_user invalid_namespace invalid_system_group : StoreError
  invalid_team_membership invalid_team_invitation : StoreError
  not_found conflict invalid_pagination : StoreError
  invalid_scope plugin_not_found already_exists version_not_available plugin_conflict : StoreError
  append_only rejected manual_required : StoreError
  database : String → StoreError

-- A hook returns an error or nil.
abbrev pub Check : Type 0
Check = Option StoreError

abbrev pub require : Bool → StoreError → Check
require true e = none
require false e = some e
