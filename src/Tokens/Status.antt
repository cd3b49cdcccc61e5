-- ===== src/Tokens/Status.antt =====
-- What the token service shows of a token is what the authenticator does with it.
use marketplace_server.Platform.{Platform}
