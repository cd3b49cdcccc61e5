-- ===== src/Identity/Text.antt =====
-- `strings.TrimSpace` and `strings.ToLower`, and `NormalizeUsername` of
-- mod/backend/domain/identity/model/model.go.
use Prim.Native.Char.{Char, code}
use Prim.Native.String.{String}
use marketplace_server.Platform.{Platform}
use marketplace_server.Identity.Slug.{
  is_word_char, is_hyphen, canonical_identity_slug, slug_automaton, is_nil,
}
use marketplace_server.Base.{
  Bool, ℕ, ◌||◌, ◌≡◌, if◌then◌else◌, leb, true, arith, false, ◌&&◌, eqb, refl, ◌+◌,
}

-- unicode.IsSpace
unfoldable pub is_space : ℕ → Bool
is_space c =
    (leb 9 c && leb c 13)
    || eqb c 32
    || eqb c 0x85
    || eqb c 0xa0
    || eqb c 0x1680
    || (leb 0x2000 c && leb c 0x200a)
    || eqb c 0x2028
    || eqb c 0x2029
    || eqb c 0x202f
    || eqb c 0x205f
    || eqb c 0x3000

unfoldable pub trim_left : String → String
unfolding is_space
trim_left String.[] = String.[]
trim_left (String.◌∷◌ c s) = if is_space (code c) then trim_left s else String.◌∷◌ c s

unfoldable pub trim_right : String → String
unfolding is_space
trim_right String.[] = String.[]
trim_right (String.◌∷◌ c s) =
    let rest = trim_right s in
    if is_nil rest && is_space (code c) then String.[] else String.◌∷◌ c rest

unfoldable pub trim_space : String → String
unfolding trim_left trim_right
trim_space s = trim_right (trim_left s)

-- `utf8.RuneCountInString`: the characters of a text, where `len` counts its bytes.
unfoldable pub rune_count : String → ℕ
rune_count String.[] = 0
rune_count (String.◌∷◌ c s) = 1 + rune_count s

module _ (env : Platform) where
  unfoldable pub to_lower : String → String
  to_lower String.[] = String.[]
  to_lower (String.◌∷◌ c s) = String.◌∷◌ (env.lower_rune c) (to_lower s)

  unfoldable pub normalize_username : String → String
  unfolding to_lower trim_space
  normalize_username s = to_lower (trim_space s)

-- What `unicode.ToLower` does with the characters of a slug: nothing.
pub record KeepsSlugChars (env : Platform) : Type 0 where
  pub kept :
      (c : Char) → (is_word_char (code c) || is_hyphen (code c)) ≡ true → env.lower_rune c ≡ c

slug_char-not_space : (c : ℕ) → (is_word_char c || is_hyphen c) ≡ true → is_space c ≡ false
unfolding is_word_char is_hyphen is_space
slug_char-not_space c h = ground arith

trim_right-slug : (b : Bool) (s : String) → slug_automaton b s ≡ true → trim_right s ≡ s
unfolding trim_right slug_automaton
trim_right-slug b String.[] h = refl
trim_right-slug b (String.◌∷◌ c s) h =
    ground (arith, trim_right-slug true s, trim_right-slug false s, slug_char-not_space (code c))

trim_left-slug : (s : String) → canonical_identity_slug s ≡ true → trim_left s ≡ s
unfolding trim_left canonical_identity_slug
trim_left-slug String.[] h = refl
trim_left-slug (String.◌∷◌ c s) h = ground (arith, slug_char-not_space (code c))

to_lower-slug :
    (env : Platform)
    → KeepsSlugChars env
    → (b : Bool) (s : String) → slug_automaton b s ≡ true
    → to_lower env s ≡ s
unfolding to_lower slug_automaton
to_lower-slug env keeps b String.[] h = refl
to_lower-slug env keeps b (String.◌∷◌ c s) h =
    ground (arith, to_lower-slug env keeps true s, to_lower-slug env keeps false s, keeps.kept c)

automaton_of_canonical :
    (s : String) → canonical_identity_slug s ≡ true → slug_automaton false s ≡ true
unfolding canonical_identity_slug
automaton_of_canonical s h = h

-- A canonical slug is its own normal form.
pub normalize-slug :
    (env : Platform)
    → KeepsSlugChars env
    → (s : String) → canonical_identity_slug s ≡ true
    → normalize_username env s ≡ s
unfolding normalize_username trim_space
normalize-slug env keeps s h =
    rw (trim_left-slug s h, trim_right-slug false s (automaton_of_canonical s h))
      (to_lower-slug env keeps false s (automaton_of_canonical s h))
