-- ===== src/Tokens.antt =====
-- pkg/auth/api_key.go and the token, account and PAT services of
-- mod/backend/domain/identity/service.
pub mod ApiKey
pub mod Credentials
pub mod Authenticator
pub mod Grants
pub mod Account
pub mod Metadata
pub mod Requests
pub mod Status
