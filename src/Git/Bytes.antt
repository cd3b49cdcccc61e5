-- ===== src/Git/Bytes.antt =====
-- Go strings as lists of their bytes, for mod/git/receive.go.
use Prim.Native.Char.{code}
use marketplace_server.Base.{[], ◌∷◌, Bool, List, ℕ, any, false, if◌then◌else◌, true, eqb, ◌&&◌}
use Prim.Native.String.{String}

abbrev pub Bytes : Type 0
Bytes = List ℕ

-- The bytes of a text in ASCII.
unfoldable pub ascii : String → Bytes
ascii String.[] = []
ascii (String.◌∷◌ c s) = code c ∷ ascii s

abbrev pub is_nil : Bytes → Bool
is_nil [] = true
is_nil (_ ∷ _) = false

-- Go's `==` of strings.
unfoldable pub same : Bytes → Bytes → Bool
same [] l = is_nil l
same (a ∷ l) m = elim m [ [] ↦ false | b ∷ m' ↦ eqb a b && same l m' ]

-- strings.HasPrefix
unfoldable pub has_prefix : Bytes → Bytes → Bool
has_prefix l [] = true
has_prefix l (b ∷ m) = elim l [ [] ↦ false | a ∷ l' ↦ eqb a b && has_prefix l' m ]

-- The keys of a Go map that is used as a set.
abbrev pub contains : Bytes → List Bytes → Bool
contains b seen = any (λ s. same s b) seen

abbrev pub cons_first : ℕ → List Bytes → List Bytes
cons_first b [] = (b ∷ []) ∷ []
cons_first b (l ∷ ls) = (b ∷ l) ∷ ls

-- strings.Split at a byte
unfoldable pub split : ℕ → Bytes → List Bytes
split sep [] = [] ∷ []
split sep (b ∷ l) = let rest = split sep l in if eqb b sep then [] ∷ rest else cons_first b rest

-- strings.Trim(s, "0") == ""
unfoldable pub all_zeros : Bytes → Bool
all_zeros [] = true
all_zeros (b ∷ l) = eqb b 48 && all_zeros l
