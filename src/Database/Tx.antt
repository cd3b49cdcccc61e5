-- ===== src/Database/Tx.antt =====
-- Statements inside a gorm transaction: they read and write a state, and the first error ends the
-- transaction. gorm's `Transaction` commits what a body without error wrote, and rolls back else.
use marketplace_server.Identity.Model.{StoreError, Check}
use marketplace_server.Base.{
  ◌≡◌, Result, err, ok, Result-cases, none, inl, some, arith, inr, Bool, false, refl,
}
use mathlib.Core.Bool.{true}

abbrev pub Tx : Type 0 → Type 0 → Type 0
Tx S A = S → Result StoreError (A × S)

module _ {S A : Type 0} where
  abbrev pub pure : A → Tx S A
  pure a s = ok (a, s)

  abbrev pub raise : StoreError → Tx S A
  raise e s = err e

module _ {S A B : Type 0} where
  infixl 10 ◌>>=◌ ◌>>◌
  unfoldable pub ◌>>=◌ : Tx S A → (A → Tx S B) → Tx S B
  ◌>>=◌ m f s = elim (m s) [ ok (a, s') ↦ f a s' | err e ↦ err e ]

  abbrev pub ◌>>◌ : Tx S A → Tx S B → Tx S B
  m >> n = m >>= λ _. n

  -- What must have happened where a chain succeeds.
  pub >>=-eq-ok :
      (m : Tx S A) (f : A → Tx S B) (s u : S) (b : B)
      → (m >>= f) s ≡ ok (b, u)
      → (a : A) × (t : S) × (m s ≡ ok (a, t)) × (f a t ≡ ok (b, u))
  unfolding ◌>>=◌
  >>=-eq-ok m f s u b h = elim (Result-cases (m s)) [
    | inl ((a, t), e) ↦ (a, t, e, ground arith)
    | inr (x, e) ↦ ground arith
  ]

abbrev pub close : {S : Type 0} → S → Result StoreError (Unit {0} × S) → Check × S
close s (ok (_, s')) = (none, s')
close s (err e) = (some e, s)

-- `db.Transaction(body)`: the error, if any, and the state that is left.
unfoldable pub transaction : {S : Type 0} → Tx S (Unit {0}) → S → Check × S
transaction body s = close s (body s)

-- A property that every successful body keeps is kept by the transaction, errors included.
pub transaction_keeps {κ} :
    {S : Type 0} (P : S → Type κ) (body : Tx S (Unit {0})) (s : S)
    → ((s' : S) → body s ≡ ok (tt, s') → P s')
    → P s
    → P (transaction body s).1
unfolding transaction
transaction_keeps P body s k h = elim (Result-cases (body s)) [
  | inl ((_, s'), e) ↦ rw e (k s' e)
  | inr (x, e) ↦ rw e h
]

-- A transaction that reports an error leaves the state as it was.
pub transaction_error :
    {S : Type 0} (body : Tx S (Unit {0})) (s : S) (x : StoreError)
    → (transaction body s).0 ≡ some x
    → (transaction body s).1 ≡ s
unfolding transaction
transaction_error body s x h = ground arith

abbrev pub close_value : {S A : Type 0} → S → Result StoreError (A × S) → Result StoreError A × S
close_value s (ok (a, s')) = (ok a, s')
close_value s (err x) = (err x, s)

-- How the answer of `db.Transaction` around a body with a result reads.
unfoldable pub transaction_value : {S A : Type 0} → Tx S A → S → Result StoreError A × S
transaction_value body s = close_value s (body s)

abbrev pub raise_if : {S : Type 0} → Bool → StoreError → Tx S (Unit {0})
raise_if true x s = err x
raise_if false x s = ok (tt, s)

pub raise_if_lem :
    {S : Type 0} (b : Bool) (x : StoreError) (s s' : S)
    → raise_if b x s ≡ ok (tt, s')
    → (b ≡ false) × (s' ≡ s)
raise_if_lem true x s s' h = cc
raise_if_lem false x s s' h = (refl, ground arith)

pub transaction_value_keeps :
    {S A : Type 0} (P : S → Type 0) (body : Tx S A) (s : S)
    → ((a : A) (s' : S) → body s ≡ ok (a, s') → P s')
    → P s
    → P (transaction_value body s).1
unfolding transaction_value
transaction_value_keeps P body s k h = elim (Result-cases (body s)) [
  | inl ((a, s'), e) ↦ rw e (k a s' e)
  | inr (x, e) ↦ rw e h
]

pub transaction_done :
    {S : Type 0} (body : Tx S (Unit {0})) (s : S)
    → (transaction body s).0 ≡ none
    → body s ≡ ok (tt, (transaction body s).1)
unfolding transaction
transaction_done body s h = elim (Result-cases (body s)) [
  | inl ((u, s'), x) ↦ ground arith
  | inr (y, x) ↦ ground arith
]

pub pure-eq-ok : {S A : Type 0} (a b : A) (s s' : S) → pure a s ≡ ok (b, s') → s ≡ s'
pure-eq-ok a b s s' h = ground arith
