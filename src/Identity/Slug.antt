-- ===== src/Identity/Slug.antt =====
-- Slugs: the expression `canonicalIdentitySlug` of mod/backend/domain/identity/model/model.go, and
-- the loop `identitySlug` of mod/backend/domain/identity/service/user_service.go.
pub mod Agree
use Prim.Native.Char.{Char, code}
use Prim.Native.String
use Prim.Native.String.{String}
use marketplace_server.Base.{
  ℕ, Bool, true, false, ◌&&◌, ◌||◌, not, leb, eqb, if◌then◌else◌, Option, none, some,
}

-- [a-z0-9]
unfoldable pub is_word_char : ℕ → Bool
is_word_char c = (leb b'a' c && leb c b'z') || (leb b'0' c && leb c b'9')

unfoldable pub is_hyphen : ℕ → Bool
is_hyphen c = eqb c b'-'

-- The expression `^[a-z0-9]+(?:-[a-z0-9]+)*$` as an automaton, which knows whether a word has begun.
unfoldable pub slug_automaton : Bool → String → Bool
slug_automaton begun String.[] = begun
slug_automaton begun (String.◌∷◌ c s) =
    if is_word_char (code c)
    then slug_automaton true s
    else begun && is_hyphen (code c) && slug_automaton false s

unfoldable pub canonical_identity_slug : String → Bool
unfolding slug_automaton
canonical_identity_slug s = slug_automaton false s

abbrev pub starts_with_hyphen : String → Bool
starts_with_hyphen String.[] = false
starts_with_hyphen (String.◌∷◌ c _) = is_hyphen (code c)

abbrev pub is_nil : String → Bool
is_nil String.[] = true
is_nil (String.◌∷◌ _ _) = false

abbrev pub follows_word : Option ℕ → Bool
follows_word none = false
follows_word (some p) = not (is_hyphen p)

-- The loop of `identitySlug`: `previous` is `value[i-1]`, absent for i = 0. The loop stops at the first
-- rune that is not ASCII, so bytes and runes are the same up to there.
unfoldable pub slug_from : Option ℕ → String → Bool
slug_from previous String.[] = true
slug_from previous (String.◌∷◌ c s) =
    let r = code c in
    let rest = slug_from (some r) s in
    if is_word_char r
    then rest
    else if is_hyphen r && follows_word previous && not (is_nil s) && not (starts_with_hyphen s)
    then rest
    else false

unfoldable pub identity_slug : String → Bool
unfolding slug_from
identity_slug value = slug_from none value
