-- ===== src/Platform.antt =====
-- What the modelled code takes from outside the repository, besides the database: Unicode tables,
-- UUID parsing, Base64 and HMAC.
use Prim.Native.Char.{Char}
use marketplace_server.Base.{ℕ, String, Option, List}

pub record Platform : Type 0 where
  -- unicode.ToLower
  pub lower_rune : Char → Char
  -- `uuid.Parse(value)`, with the result of `String()` on what it parsed
  pub parse_uuid : String → Option String
  -- base64.RawURLEncoding
  pub base64_decode : String → Option (List ℕ)
  pub base64_encode : List ℕ → String
  -- HMAC-SHA-256 with the pepper as its key
  pub hmac_sha256 : List ℕ → String → List ℕ
