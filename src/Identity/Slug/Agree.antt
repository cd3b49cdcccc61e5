-- ===== src/Identity/Slug/Agree.antt =====
-- The loop and the expression agree on every text but the empty one.
use Prim.Native.Char.{Char, code}
use Prim.Native.String.{String}
use marketplace_server.Identity.Slug.{
  is_word_char, is_hyphen, slug_automaton, canonical_identity_slug, slug_from, identity_slug,
  is_nil, Bool, false, ℕ,
}
use marketplace_server.Base.{◌≡◌, true, ◌||◌, arith, some, ◌↔◌, Bool-cases, refl, inl, inr}

-- The language of the expression: words of letters and digits, joined by single hyphens.
pub data IsSlug : String → Type 0 where
  last : {c : Char} → is_word_char (code c) ≡ true → IsSlug (String.◌∷◌ c String.[])
  letter :
      {c : Char} {s : String} → is_word_char (code c) ≡ true → IsSlug s → IsSlug (String.◌∷◌ c s)
  hyphen :
      {c h : Char} {s : String}
      → is_word_char (code c) ≡ true
      → is_hyphen (code h) ≡ true
      → IsSlug s
      → IsSlug (String.◌∷◌ c (String.◌∷◌ h s))

hyphen-not_word : (c : ℕ) → is_hyphen c ≡ true → is_word_char c ≡ false
unfolding is_hyphen is_word_char
hyphen-not_word c h = ground arith

IsSlug-automaton : {s : String} (b : Bool) → IsSlug s → slug_automaton b s ≡ true
unfolding slug_automaton
IsSlug-automaton b (last w) = rw w
IsSlug-automaton b (letter w k) = rw w (IsSlug-automaton true k)
IsSlug-automaton b (hyphen {h = h} w m k) =
    rw (w, hyphen-not_word (code h) m, m) (IsSlug-automaton false k)

-- What the automaton accepts behind a letter or digit makes a slug with it.
automaton-behind :
    (c : Char) (s : String)
    → is_word_char (code c) ≡ true
    → slug_automaton true s ≡ true
    → IsSlug (String.◌∷◌ c s)
unfolding slug_automaton
automaton-behind c String.[] w h = last w
automaton-behind c (String.◌∷◌ d String.[]) w h =
    letter w (automaton-behind d String.[] (ground arith) refl)
automaton-behind c (String.◌∷◌ d (String.◌∷◌ e s)) w h = elim (Bool-cases (is_word_char (code d))) [
  | inl v ↦ letter w (automaton-behind d (String.◌∷◌ e s) v (ground arith))
  | inr v ↦ hyphen w (ground arith) (automaton-behind e s (ground arith) (ground arith))
]

-- The expression accepts exactly the words of letters and digits joined by single hyphens.
pub canonical-iff-IsSlug : (s : String) → (canonical_identity_slug s ≡ true) ↔ IsSlug s
unfolding canonical_identity_slug
canonical-iff-IsSlug String.[] = (λ h. cc, λ k. IsSlug-automaton false k)
canonical-iff-IsSlug (String.◌∷◌ c s) =
    (λ h. automaton-behind c s (ground arith) (ground arith), λ k. IsSlug-automaton false k)

-- The loop past its first rune, as the automaton sees it.
loop-automaton :
    (p : ℕ) (s : String) → is_word_char p ≡ true → slug_from (some p) s ≡ slug_automaton true s
unfolding slug_from slug_automaton
loop-automaton p String.[] w = refl
loop-automaton p (String.◌∷◌ c String.[]) w =
    ground (arith, hyphen-not_word (code c), hyphen-not_word p)
loop-automaton p (String.◌∷◌ c (String.◌∷◌ d s)) w = ground (
  arith,
  loop-automaton (code c) (String.◌∷◌ d s),
  loop-automaton (code d) s,
  hyphen-not_word (code d),
  hyphen-not_word p,
)

-- The service's loop accepts exactly the texts that the model's expression accepts, and the empty
-- text, which the expression refuses.
pub identity_slug-eq-canonical :
    (s : String) → identity_slug s ≡ (is_nil s || canonical_identity_slug s)
unfolding identity_slug canonical_identity_slug
identity_slug-eq-canonical String.[] = refl
identity_slug-eq-canonical (String.◌∷◌ c s) = ground (arith, loop-automaton (code c) s)
