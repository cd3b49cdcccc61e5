-- ===== src/Tokens/ApiKey.antt =====
-- pkg/auth/api_key.go: the form of an API key, and the index under which it is stored.
use Prim.Native.String
use Prim.Native.String.append
use Prim.Native.String.{String, len}
use marketplace_server.Base.{
  ℕ, Bool, List, Option, ◌≡◌, Result, false, is_some, ok, some, arith, eqb, if◌then◌else◌, length,
  none, ltb, not, refl, ◌&&◌, err, ◌==◌, ◌+◌, ◌||◌, eq_iff,
}
use marketplace_server.Platform.{Platform}
use Prim.Native.Char.{code}

pub data ApiKeyError : Type 0 where
  malformed_api_key malformed_api_key_index weak_api_key_pepper : ApiKeyError

abbrev pub api_key_prefix : String
api_key_prefix = "mpsk_"

abbrev pub api_key_index_prefix : String
api_key_index_prefix = "mpsk_hmac_sha256_"

abbrev pub api_key_random_bytes : ℕ
api_key_random_bytes = 32

abbrev pub api_key_encoded_length : ℕ
api_key_encoded_length = 43

abbrev pub minimum_api_key_pepper_bytes : ℕ
minimum_api_key_pepper_bytes = 32

-- `strings.HasPrefix` and `strings.TrimPrefix` at once: what follows the prefix, if it is there.
unfoldable pub after_prefix : String → String → Option String
after_prefix String.[] s = some s
after_prefix (String.◌∷◌ c p) String.[] = none
after_prefix (String.◌∷◌ c p) (String.◌∷◌ d s) =
    let rest = after_prefix p s in if eqb (code c) (code d) then rest else none

unfoldable pub has_api_key_prefix : String → Bool
has_api_key_prefix plaintext = is_some (after_prefix api_key_prefix plaintext)

module _ (env : Platform) where
  abbrev decodes_to : ℕ → Option (List ℕ) → Bool
  decodes_to n none = false
  decodes_to n (some decoded) = eqb (length decoded) n

  unfoldable pub validate_api_key : String → Option ApiKeyError
  validate_api_key plaintext = elim (after_prefix api_key_prefix plaintext) [
    | none ↦ some malformed_api_key
    | some payload ↦
        if not (eqb (len plaintext) (5 + api_key_encoded_length))
          || not (decodes_to api_key_random_bytes (env.base64_decode payload))
        then some malformed_api_key
        else none
  ]

  abbrev is_index_payload : String → Option (List ℕ) → Bool
  is_index_payload payload none = false
  is_index_payload payload (some decoded) =
      eqb (length decoded) 32 && env.base64_encode decoded == payload

  unfoldable pub validate_api_key_index : String → Option ApiKeyError
  validate_api_key_index index = elim (after_prefix api_key_index_prefix index) [
    | none ↦ some malformed_api_key_index
    | some payload ↦
        if is_index_payload payload (env.base64_decode payload)
        then none
        else some malformed_api_key_index
  ]

  unfoldable pub index_api_key : String → List ℕ → Result ApiKeyError String
  index_api_key plaintext pepper =
      if ltb (length pepper) minimum_api_key_pepper_bytes
      then err weak_api_key_pepper
      else elim (validate_api_key plaintext) [
        | some x ↦ err x
        | none ↦ ok (
            String.◌++◌ api_key_index_prefix (env.base64_encode (env.hmac_sha256 pepper plaintext)))
      ]

-- The encodings that the index relies on: Base64 decodes the digest that it encoded, and HMAC-SHA-256
-- has 32 bytes.
pub record KeepsDigests (env : Platform) : Type 0 where
  pub decoded :
      (k : List ℕ) (s : String)
      → env.base64_decode (env.base64_encode (env.hmac_sha256 k s)) ≡ some (env.hmac_sha256 k s)
  pub size : (k : List ℕ) (s : String) → length (env.hmac_sha256 k s) ≡ 32

after_prefix-++ : (p s : String) → after_prefix p (String.◌++◌ p s) ≡ some s
unfolding after_prefix
after_prefix-++ String.[] s = rw (append.nil s) refl
after_prefix-++ (String.◌∷◌ c p) s = rw (append.cons c p s) (ground (arith, after_prefix-++ p s))

-- Where Base64 decodes a digest that it encoded and a digest has 32 bytes, the index of a key is an index
-- that `ValidateAPIKeyIndex`, and so the create hook of a token, accepts.
pub validate-index_api_key :
    (env : Platform) (plaintext : String) (pepper : List ℕ) (index : String)
    → KeepsDigests env
    → index_api_key env plaintext pepper ≡ ok index
    → validate_api_key_index env index ≡ none
unfolding index_api_key validate_api_key_index
validate-index_api_key env plaintext pepper index keeps h =
    let digest = env.hmac_sha256 pepper plaintext in
    let written = env.base64_encode digest in
    ground (
      arith,
      after_prefix-++ api_key_index_prefix written,
      keeps.decoded pepper plaintext,
      keeps.size pepper plaintext,
      eq_iff written written,
    )
