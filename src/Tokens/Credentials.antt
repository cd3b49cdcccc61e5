-- ===== src/Tokens/Credentials.antt =====
-- The rows that `Repository` reads for tokens (mod/backend/domain/identity/dao/repository.go).
use marketplace_server.Base.{Option, String, ℕ, Bool, false, some, not, ltb}
use marketplace_server.Identity.Model.{TokenPreset, UserStatus}
use mathlib.Core.Option.{none}

pub record TokenMetadataRecord : Type 0 where
  pub id : String
  pub user_id : String
  pub name : String
  pub preset : TokenPreset
  pub expires_at : Option ℕ
  pub last_used_at : Option ℕ
  pub revoked_at : Option ℕ
  pub created_at : ℕ

pub record TokenRevealRecord : Type 0 where
  pub metadata : TokenMetadataRecord
  pub secret_plaintext : String

pub record TokenCredentialRecord : Type 0 where
  pub id : String
  pub user_id : String
  pub username : String
  pub user_status : UserStatus
  pub preset : TokenPreset
  pub expires_at : Option ℕ
  pub revoked_at : Option ℕ

-- `expiresAt != nil && !expiresAt.After(now)`
abbrev pub is_expired : Option ℕ → ℕ → Bool
is_expired none now = false
is_expired (some t) now = not (ltb now t)
