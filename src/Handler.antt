-- ===== src/Handler.antt =====
-- The steps of a request: reads and writes of a store in order, where the first error is the answer
-- and what was written before it stays. The services are written in them.
use marketplace_server.Database.Error.{StoreError, Check}
use marketplace_server.Base.{Bool, Result, err, ok, some, none, true, false}

abbrev pub Step : Type 0 → Type 0 → Type 0 → Type 0
Step E S A = S → Result E A × S

abbrev pub raised : {E A : Type 0} → (StoreError → E) → Result StoreError A → Result E A
raised f (ok a) = ok a
raised f (err x) = err (f x)

abbrev pub checked : {E : Type 0} → (StoreError → E) → Check → Result E (Unit {0})
checked f none = ok tt
checked f (some x) = err (f x)

module _ {E S A : Type 0} where
  abbrev pub pure : A → Step E S A
  pure a s = (ok a, s)

  abbrev pub raise : E → Step E S A
  raise x s = (err x, s)

  abbrev pub read : (StoreError → E) → (S → Result StoreError A) → Step E S A
  read f m s = (raised f (m s), s)

  -- A read whose error the handler looks at.
  abbrev pub look : (S → Result StoreError A) → Step E S (Result StoreError A)
  look m s = (ok (m s), s)

  abbrev pub write_value : (StoreError → E) → (S → Result StoreError A × S) → Step E S A
  write_value f m s = (raised f (m s).0, (m s).1)

module _ {E S : Type 0} where
  abbrev pub write : (StoreError → E) → (S → Check × S) → Step E S (Unit {0})
  write f m s = (checked f (m s).0, (m s).1)

  abbrev pub note : (S → S) → Step E S (Unit {0})
  note f s = (ok tt, f s)

  abbrev pub refuse_if : Bool → E → Step E S (Unit {0})
  refuse_if true x s = (err x, s)
  refuse_if false x s = (ok tt, s)

module _ {E S A B : Type 0} where
  infixl 10 ◌>>=◌ ◌>>◌
  unfoldable pub ◌>>=◌ : Step E S A → (A → Step E S B) → Step E S B
  ◌>>=◌ m f s = elim (m s).0 [ ok a ↦ f a (m s).1 | err x ↦ (err x, (m s).1) ]

  abbrev pub ◌>>◌ : Step E S A → Step E S B → Step E S B
  m >> n = m >>= λ _. n
