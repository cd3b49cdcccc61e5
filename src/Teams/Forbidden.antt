-- ===== src/Teams/Forbidden.antt =====
-- When a request of team_service.go answers that the principal may not do this.
use marketplace_server.Teams.Service.{log_mutation}
use marketplace_server.Teams.Store.{TeamStore}
use marketplace_server.Teams.Step.{
  TeamError, map_team_error, ◌>>=◌, team_forbidden, Step, refuse_if, ◌>>◌, store,
  invalid_team_input, write, read,
}
use marketplace_server.Auth.Principal.{Principal}
use marketplace_server.Identity.Model.{StoreError, Check}
use marketplace_server.Base.{
  Bool, ◌≡◌, false, true, arith, Result, ok, err, String, refl, Result-cases, inl, inr,
  Option-cases,
}

abbrev pub is_team_forbidden : TeamError → Bool
is_team_forbidden team_forbidden = true
is_team_forbidden _ = false

-- The answer is that the principal may not do this.
abbrev pub is_forbidden : {A : Type 0} → Result TeamError A → Bool
is_forbidden (ok _) = false
is_forbidden (err x) = is_team_forbidden x

-- A step that is never forbidden.
abbrev pub IsAllowed : {S A : Type 0} → Step S A → Type 0
IsAllowed {S = S} m = (s : S) → is_forbidden (m s).0 ≡ false

module _ {S A B : Type 0} where
  pub seq-IsAllowed :
      (m : Step S A) (f : A → Step S B)
      → IsAllowed m
      → ((a : A) → IsAllowed (f a))
      → IsAllowed (m >>= f)
  unfolding ◌>>=◌
  seq-IsAllowed m f h k s = elim (Result-cases (m s).0) [
    | inl (a, q) ↦ rw (q, is_forbidden) (k a (m s).1)
    | inr (x, q) ↦ ground (arith, h s)
  ]

  -- What follows an answer decides.
  pub answered-is_forbidden :
      (m : Step S A) (f : A → Step S B) (s : S) (a : A) (b : Bool)
      → (m s).0 ≡ ok a
      → is_forbidden (f a (m s).1).0 ≡ b
      → is_forbidden ((m >>= f) s).0 ≡ b
  unfolding ◌>>=◌
  answered-is_forbidden m f s a b h k = rw (h, is_forbidden) k

module _ {S A : Type 0} where
  pub refused-is_forbidden :
      (c : Bool) (n : Step S A) (s : S)
      → is_forbidden (n s).0 ≡ false
      → is_forbidden ((refuse_if c team_forbidden >> n) s).0 ≡ c
  unfolding ◌>>=◌
  refused-is_forbidden true n s h = refl
  refused-is_forbidden false n s h = h

pub map_team_error-is_forbidden : (x : StoreError) → is_team_forbidden (map_team_error x) ≡ false
unfolding map_team_error
map_team_error-is_forbidden x = ground arith

module _ {S : Type 0} where
  pub invalid-IsAllowed : (c : Bool) → IsAllowed {S = S} (refuse_if c invalid_team_input)
  invalid-IsAllowed true s = refl
  invalid-IsAllowed false s = refl

  pub store-IsAllowed : (m : S → Check × S) → IsAllowed (write store m)
  store-IsAllowed m s = ground arith

  pub mapped-IsAllowed : (m : S → Check × S) → IsAllowed (write map_team_error m)
  mapped-IsAllowed m s = elim (Option-cases (m s).0) [
    | inl q ↦ rw (q, is_forbidden) refl
    | inr (x, q) ↦ rw (q, is_forbidden) (map_team_error-is_forbidden x)
  ]

  pub read-IsAllowed :
      {A : Type 0} (m : S → Result StoreError A) → IsAllowed (read map_team_error m)
  read-IsAllowed m s = elim (Result-cases (m s)) [
    | inl (a, q) ↦ rw (q, is_forbidden) refl
    | inr (x, q) ↦ rw (q, is_forbidden) (map_team_error-is_forbidden x)
  ]

  pub listed-IsAllowed : {A : Type 0} (m : S → Result StoreError A) → IsAllowed (read store m)
  listed-IsAllowed m s = elim (Result-cases (m s)) [
    | inl (a, q) ↦ rw (q, is_forbidden) refl
    | inr (x, q) ↦ rw (q, is_forbidden) refl
  ]

  pub logged-IsAllowed :
      (repository : TeamStore S) (p : Principal) (a b c d x : String)
      → IsAllowed (log_mutation repository p a b c d x)
  unfolding log_mutation
  logged-IsAllowed repository p a b c d x s = refl
