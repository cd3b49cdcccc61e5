-- ===== src/Auth/Scope.antt =====
-- pkg/auth/contracts.go: `ScopeSet`. The keys of its map are a list without repetitions, in the
-- order of insertion; only `actions` shows an order, and it sorts.
use text.Mathlib.Text.{is_lt}
use Prim.Native.String.{compare}
use marketplace_server.Base.{
  Bool, true, false, List, [], ◌∷◌, ◌≡◌, refl, arith, ◌==◌, ◌||◌, eq_iff, any, ap, if◌then◌else◌,
}
use marketplace_server.Auth.Action.{Action, spelling, same_action}

pub record ScopeSet : Type 0 where
  pub unrestricted : Bool
  pub keys : List Action

unfoldable pub unrestricted_scopes : ScopeSet
unrestricted_scopes = record { unrestricted = true; keys = [] }

-- `_, ok := m[action]`
abbrev pub has_key : Action → List Action → Bool
has_key a keys = any (same_action a) keys

-- `m[action] = struct{}{}`
put_key : Action → List Action → List Action
put_key a keys = if has_key a keys then keys else a ∷ keys

put_keys : List Action → List Action → List Action
unfolding put_key
put_keys [] keys = keys
put_keys (a ∷ rest) keys = put_keys rest (put_key a keys)

unfoldable pub restricted_scopes : List Action → ScopeSet
unfolding put_keys
restricted_scopes [] = record { unrestricted = false; keys = [] }
restricted_scopes listed = record { unrestricted = false; keys = put_keys listed [] }

unfoldable pub allows : ScopeSet → Action → Bool
allows s a = if s.unrestricted then true else has_key a s.keys

-- `sort.Slice` by `<` on strings.
before : Action → Action → Bool
before a b = is_lt (compare (spelling a) (spelling b))

insert_sorted : Action → List Action → List Action
unfolding before
insert_sorted a [] = a ∷ []
insert_sorted a (b ∷ bs) = if before b a then b ∷ insert_sorted a bs else a ∷ b ∷ bs

sort_actions : List Action → List Action
unfolding insert_sorted
sort_actions [] = []
sort_actions (a ∷ rest) = insert_sorted a (sort_actions rest)

pub actions : ScopeSet → List Action
unfolding sort_actions
actions s = if s.unrestricted then [] else sort_actions s.keys

unfoldable pub clone_scopes : ScopeSet → ScopeSet
unfolding actions
clone_scopes s = if s.unrestricted then unrestricted_scopes else restricted_scopes (actions s)

has_key-same :
    (a b : Action) (keys : List Action) → spelling a ≡ spelling b → has_key a keys ≡ has_key b keys
has_key-same a b keys e = ap (λ s. any (λ c. s == spelling c) keys) e

-- A key that was put is found, and no other key appears.
has_key-put_key :
    (a b : Action) (keys : List Action)
    → has_key a (put_key b keys) ≡ (same_action a b || has_key a keys)
unfolding put_key
has_key-put_key a b keys = ground (arith, has_key-same a b keys, eq_iff (spelling a) (spelling b))

has_key-put_keys :
    (a : Action) (listed keys : List Action)
    → has_key a (put_keys listed keys) ≡ (has_key a listed || has_key a keys)
unfolding put_keys
has_key-put_keys a [] keys = refl
has_key-put_keys a (b ∷ rest) keys =
    ground (arith, has_key-put_keys a rest (put_key b keys), has_key-put_key a b keys)

has_key-insert_sorted :
    (a b : Action) (keys : List Action)
    → has_key a (insert_sorted b keys) ≡ (same_action a b || has_key a keys)
unfolding insert_sorted
has_key-insert_sorted a b [] = refl
has_key-insert_sorted a b (c ∷ keys) = ground (arith, has_key-insert_sorted a b keys)

has_key-sort_actions :
    (a : Action) (keys : List Action) → has_key a (sort_actions keys) ≡ has_key a keys
unfolding sort_actions
has_key-sort_actions a [] = refl
has_key-sort_actions a (b ∷ keys) =
    ground (arith, has_key-sort_actions a keys, has_key-insert_sorted a b (sort_actions keys))

-- A restricted set allows the listed actions.
pub allows-restricted_scopes :
    (listed : List Action) (a : Action) → allows (restricted_scopes listed) a ≡ has_key a listed
unfolding allows restricted_scopes
allows-restricted_scopes [] a = refl
allows-restricted_scopes (b ∷ rest) a = ground (arith, has_key-put_keys a (b ∷ rest) [])

-- A copy of a scope set, which goes through its sorted list of actions, allows what it allowed.
pub allows-clone_scopes : (s : ScopeSet) (a : Action) → allows (clone_scopes s) a ≡ allows s a
unfolding clone_scopes allows unrestricted_scopes
allows-clone_scopes s a =
    ground (arith, allows-restricted_scopes (sort_actions s.keys) a, has_key-sort_actions a s.keys)
