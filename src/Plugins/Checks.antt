-- ===== src/Plugins/Checks.antt =====
-- mod/backend/domain/plugin/service.go: the checks of what a caller or the Git storage hands in.
use Prim.Native.Char.{code}
use Prim.Native.String.{len}
use marketplace_server.Base.{
  Bool, List, String, ℕ, eqb, if◌then◌else◌, leb, suc, true, ◌&&◌, ◌==◌, ◌||◌, false, ltb, length,
  [], ◌∷◌,
}
use marketplace_server.Auth.Action.{PluginVisibility, is_public, is_private}
use marketplace_server.Plugins.Step.{PluginSourceInspection}
use Prim.Native.Nat.{zero}
use marketplace_server.Identity.Slug.{canonical_identity_slug}

-- `validSlug`. A slug that matches is ASCII, so its bytes are its characters.
unfoldable pub valid_slug : String → Bool
valid_slug value = leb 1 (len value) && leb (len value) 63 && canonical_identity_slug value

-- `validVisibility`
abbrev pub valid_visibility : PluginVisibility → Bool
valid_visibility v = is_public v || is_private v

abbrev pub is_digit : ℕ → Bool
is_digit c = leb b'0' c && leb c b'9'

abbrev pub is_letter : ℕ → Bool
is_letter c = (leb b'a' c && leb c b'z') || (leb b'A' c && leb c b'Z') || eqb c b'-'

abbrev pub is_hex : ℕ → Bool
is_hex c = is_digit c || (leb b'a' c && leb c b'f')

unfoldable pub all_hex : String → Bool
all_hex String.[] = true
all_hex (String.◌∷◌ c s) = is_hex (code c) && all_hex s

-- `validObjectID`: the loop refuses what is not ASCII, so bytes and characters agree.
unfoldable pub valid_object_id : String → Bool
unfolding all_hex
valid_object_id value = (eqb (len value) 40 || eqb (len value) 64) && all_hex value

-- Where the expression `canonicalTagPattern` stands in a tag: before the `v`; at the start, after a
-- leading zero or inside of one of the three numbers, with so many numbers still to come; at the
-- start or inside of an identifier of the pre-release, which is a zero, digits that begin with
-- another one, digits that begin with a zero, or has a letter; or of the build.
pub data TagState : Type 0 where
  start : TagState
  number zero_number digits : ℕ → TagState
  pre pre_zero pre_digits pre_padded pre_word : TagState
  build build_word : TagState
  stuck : TagState

-- What may follow a complete number.
abbrev pub after_number : ℕ → ℕ → TagState
after_number (suc n) c = if eqb c b'.' then number n else stuck
after_number zero c = if eqb c b'-' then pre else if eqb c b'+' then build else stuck

-- What may follow a complete identifier of the pre-release.
abbrev pub after_pre : ℕ → TagState
after_pre c = if eqb c b'.' then pre else if eqb c b'+' then build else stuck

unfoldable pub tag_step : TagState → ℕ → TagState
tag_step start c = if eqb c b'v' then number 2 else stuck
tag_step (number n) c = if eqb c b'0' then zero_number n else if is_digit c then digits n else stuck
tag_step (zero_number n) c = after_number n c
tag_step (digits n) c = if is_digit c then digits n else after_number n c
tag_step pre c =
    if eqb c b'0'
    then pre_zero
    else if is_digit c
    then pre_digits
    else if is_letter c
    then pre_word
    else stuck
tag_step pre_zero c =
    if is_digit c then pre_padded else if is_letter c then pre_word else after_pre c
tag_step pre_digits c =
    if is_digit c then pre_digits else if is_letter c then pre_word else after_pre c
tag_step pre_padded c = if is_digit c then pre_padded else if is_letter c then pre_word else stuck
tag_step pre_word c = if is_digit c || is_letter c then pre_word else after_pre c
tag_step build c = if is_digit c || is_letter c then build_word else stuck
tag_step build_word c =
    if is_digit c || is_letter c then build_word else if eqb c b'.' then build else stuck
tag_step stuck c = stuck

abbrev pub is_last : ℕ → Bool
is_last n = eqb n 0

-- Where the expression may end.
unfoldable pub is_final : TagState → Bool
is_final (zero_number n) = is_last n
is_final (digits n) = is_last n
is_final pre_zero = true
is_final pre_digits = true
is_final pre_word = true
is_final build_word = true
is_final _ = false

unfoldable pub tag_automaton : TagState → String → Bool
unfolding tag_step is_final
tag_automaton t String.[] = is_final t
tag_automaton t (String.◌∷◌ c s) = tag_automaton (tag_step t (code c)) s

-- `validCanonicalTag`
unfoldable pub valid_canonical_tag : String → Bool
unfolding tag_automaton
valid_canonical_tag tag = leb (len tag) 255 && tag_automaton start tag

-- `validInspection`. The inspector writes a digest in hexadecimal, so its bytes are its characters.
unfoldable pub valid_inspection : PluginSourceInspection → Bool
valid_inspection i =
    valid_object_id i.raw_tag_object_id
    && valid_object_id i.commit_object_id
    && eqb (len i.manifest_digest) 64
    && ltb 0 (length i.manifest_snapshot)

unfoldable pub same_bytes : List ℕ → List ℕ → Bool
same_bytes [] [] = true
same_bytes (a ∷ l) (b ∷ m) = eqb a b && same_bytes l m
same_bytes _ _ = false

-- The comparison of two inspections in `Publish`.
unfoldable pub same_inspection : PluginSourceInspection → PluginSourceInspection → Bool
unfolding same_bytes
same_inspection i j =
    i.raw_tag_object_id == j.raw_tag_object_id
    && i.commit_object_id == j.commit_object_id
    && i.manifest_digest == j.manifest_digest
    && same_bytes i.manifest_snapshot j.manifest_snapshot
