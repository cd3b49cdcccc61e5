-- ===== src/Sql.antt =====
-- The database behind gorm.io/gorm, which is not part of the repository: an interface with the
-- documented behaviour that the data-access code relies on.
mod Counting
pub use Counting.*
use marketplace_server.Base.{
  ℕ, suc, Bool, not, ◌≡◌, String, List, [], ◌∷◌, ◌++◌, map, length, filter, if◌then◌else◌, any,
  false,
}

-- A statement is answered, or fails with the message of the driver.
pub data Answer {ℓ} (A : Type ℓ) : Type ℓ where
  answered : A → Answer A
  failed : String → Answer A

pub record Engine : Type 1 where
  pub Table : Type 0 → Type 0
  -- The rows of a table, in an order of the engine's.
  pub rows : {A : Type 0} → Table A → List A
  -- SELECT … WHERE
  pub select : {A : Type 0} → (A → Bool) → Table A → Answer (List A)
  -- SELECT … FROM a JOIN b ON …
  pub join : {A B : Type 0} → (A → B → Bool) → Table A → Table B → Answer (List (A × B))
  -- INSERT into a table whose unique indexes the test describes: which rows it clashes with
  pub insert : {A : Type 0} → (A → Bool) → A → Table A → Answer (Table A)
  -- INSERT … ON CONFLICT DO NOTHING
  pub insert_ignore : {A : Type 0} → (A → Bool) → A → Table A → Answer (Table A)
  -- UPDATE … SET … WHERE, with the number of rows matched
  pub update : {A : Type 0} → (A → Bool) → (A → A) → Table A → Answer (Table A × ℕ)
  -- DELETE … WHERE
  pub delete : {A : Type 0} → (A → Bool) → Table A → Answer (Table A)
  -- pg_advisory_xact_lock
  pub advisory_lock : String → Answer (Unit {0})
  pub rows-select :
      {A : Type 0} (p : A → Bool) (t : Table A) (found : List A)
      → select p t ≡ answered found
      → found ≡ filter p (rows t)
  pub rows-join :
      {A B : Type 0} (p : A → B → Bool) (t : Table A) (u : Table B) (found : List (A × B))
      → join p t u ≡ answered found
      → found ≡ pairs p (rows t) (rows u)
  pub rows-insert :
      {A : Type 0} (clash : A → Bool) (a : A) (t t' : Table A)
      → insert clash a t ≡ answered t'
      → (any clash (rows t) ≡ false) × (rows t' ≡ rows t ++ a ∷ [])
  pub rows-insert_ignore :
      {A : Type 0} (clash : A → Bool) (a : A) (t t' : Table A)
      → insert_ignore clash a t ≡ answered t'
      → rows t' ≡ (if any clash (rows t) then rows t else rows t ++ a ∷ [])
  pub rows-update :
      {A : Type 0} (p : A → Bool) (f : A → A) (t t' : Table A) (n : ℕ)
      → update p f t ≡ answered (t', n)
      → (rows t' ≡ map_where p f (rows t)) × (n ≡ count p (rows t))
  pub rows-delete :
      {A : Type 0} (p : A → Bool) (t t' : Table A)
      → delete p t ≡ answered t'
      → rows t' ≡ filter (λ a. not (p a)) (rows t)
