-- ===== src/Sql/Counting.antt =====
-- What SQL statements do to lists of rows, and how many rows there are.
use marketplace_server.Base.{
  ℕ, suc, ◌+◌, ◌≤◌, ◌≡◌, refl, Bool, true, false, List, [], ◌∷◌, ◌++◌, length, filter, any,
  if◌then◌else◌, arith, Bool-cases, ◌<◌, ◌||◌, inl, inr, all, ◌&&◌,
}

module _ {A : Type 0} where
  -- COUNT(*) … WHERE
  abbrev pub count : (A → Bool) → List A → ℕ
  count p [] = 0
  count p (a ∷ as') = if p a then suc (count p as') else count p as'

  -- UPDATE … WHERE
  abbrev pub map_where : (A → Bool) → (A → A) → List A → List A
  map_where p f [] = []
  map_where p f (a ∷ as') = (if p a then f a else a) ∷ map_where p f as'

  pub length-filter : (p : A → Bool) (l : List A) → length (filter p l) ≡ count p l
  length-filter p [] = refl
  length-filter p (a ∷ l) = ground (arith, length-filter p l)

  pub count-append : (p : A → Bool) (l m : List A) → count p (l ++ m) ≡ count p l + count p m
  count-append p [] m = omega arith
  count-append p (a ∷ l) m = ground (arith, count-append p l m)

  -- An update that the test does not see keeps the count.
  pub count-map_where :
      (p q : A → Bool) (f : A → A) (l : List A)
      → ((a : A) → q a ≡ true → p (f a) ≡ p a)
      → count p (map_where q f l) ≡ count p l
  count-map_where p q f [] h = refl
  count-map_where p q f (a ∷ l) h = ground (arith, count-map_where p q f l h, h a)

  pub count-filter-le : (p q : A → Bool) (l : List A) → count p (filter q l) ≤ count p l
  count-filter-le p q [] = omega arith
  count-filter-le p q (a ∷ l) = ground (arith, count-filter-le p q l)

module _ {A B : Type 0} where
  -- The pairs of rows that a JOIN yields.
  abbrev pub paired : (A → B → Bool) → A → List B → List (A × B)
  paired p a [] = []
  paired p a (b ∷ bs) = if p a b then (a, b) ∷ paired p a bs else paired p a bs

  abbrev pub pairs : (A → B → Bool) → List A → List B → List (A × B)
  pairs p [] bs = []
  pairs p (a ∷ l) bs = paired p a bs ++ pairs p l bs

module _ {A : Type 0} where
  -- Every row has the property.
  abbrev pub All {κ} : (A → Type κ) → List A → Type κ
  All P [] = Unit
  All P (a ∷ l) = P a × All P l

  pub All-false_of_count : (q : A → Bool) (l : List A) → count q l ≤ 0 → All (λ a. q a ≡ false) l
  All-false_of_count q [] h = tt
  All-false_of_count q (a ∷ l) h = (ground arith, All-false_of_count q l (ground arith))

  pub All-weaken {κ μ} :
      {P : A → Type κ} {Q : A → Type μ} → ((a : A) → P a → Q a) → (l : List A) → All P l → All Q l
  All-weaken f [] h = tt
  All-weaken f (a ∷ l) h = (f a h.0, All-weaken f l h.1)

  -- Where a key is unique, the first row found is the only one.
  pub All-of_unique :
      (q : A → Bool) (l : List A) (c : A) (rest : List A)
      → count q l ≤ 1
      → filter q l ≡ c ∷ rest
      → All (λ a. q a ≡ true → a ≡ c) l
  All-of_unique q [] c rest k h = tt
  All-of_unique q (a ∷ l) c rest k h = elim (Bool-cases (q a)) [
    | inl e ↦ (
      λ _. ground arith,
      All-weaken (λ b n. λ t. ground arith) l (All-false_of_count q l (ground arith)),
    )
    | inr e ↦ (λ t. ground arith, All-of_unique q l c rest (ground arith) (ground arith))
  ]

  -- A row that passes a test still passes it after an update that keeps the test on every row.
  pub any-map_where :
      (r q : A → Bool) (f : A → A) (l : List A)
      → All (λ a. r a ≡ true → r (if q a then f a else a) ≡ true) l
      → any r l ≡ true
      → any r (map_where q f l) ≡ true
  any-map_where r q f [] h k = k
  any-map_where r q f (a ∷ l) h k = ground (arith, h.0, any-map_where r q f l h.1)

  pub any-filter :
      (r q : A → Bool) (l : List A)
      → All (λ a. r a ≡ true → q a ≡ true) l
      → any r l ≡ true
      → any r (filter q l) ≡ true
  any-filter r q [] h k = k
  any-filter r q (a ∷ l) h k = ground (arith, h.0, any-filter r q l h.1)

  pub any-append : (r : A → Bool) (l m : List A) → any r (l ++ m) ≡ (any r l || any r m)
  any-append r [] m = refl
  any-append r (a ∷ l) m = ground (arith, any-append r l m)

  pub any_of_count : (r : A → Bool) (l : List A) → 0 < count r l → any r l ≡ true
  any_of_count r [] h = absurd (omega arith)
  any_of_count r (a ∷ l) h = ground (arith, any_of_count r l)

  pub any_mono :
      (r q : A → Bool) (l : List A)
      → ((a : A) → r a ≡ true → q a ≡ true)
      → any r l ≡ true
      → any q l ≡ true
  any_mono r q [] h k = k
  any_mono r q (a ∷ l) h k = ground (arith, h a, any_mono r q l h)

  -- An update that writes what was there changes nothing.
  pub map_where_id :
      (q : A → Bool) (f : A → A) (l : List A) → ((a : A) → f a ≡ a) → map_where q f l ≡ l
  map_where_id q f [] h = refl
  map_where_id q f (a ∷ l) h = ground (arith, h a, map_where_id q f l h)

  pub count_of_any-false :
      (q p : A → Bool) (l : List A)
      → ((a : A) → q a ≡ true → p a ≡ true)
      → any p l ≡ false
      → count q l ≡ 0
  count_of_any-false q p [] h k = refl
  count_of_any-false q p (a ∷ l) h k = ground (arith, h a, count_of_any-false q p l h)

  pub All-true : (P : A → Type 0) (l : List A) → ((a : A) → P a) → All P l
  All-true P [] h = tt
  All-true P (a ∷ l) h = (h a, All-true P l h)

  -- What a search finds passes its test.
  pub filter_head :
      (q : A → Bool) (l : List A) (c : A) (rest : List A) → filter q l ≡ c ∷ rest → q c ≡ true
  filter_head q [] c rest h = cc
  filter_head q (a ∷ l) c rest h = elim (Bool-cases (q a)) [
    | inl e ↦ ground arith
    | inr e ↦ filter_head q l c rest (ground arith)
  ]

  -- An update that keeps a test where the row passes it and is matched keeps it on every row.
  pub all-map_where :
      (p q : A → Bool) (f : A → A) (l : List A)
      → ((a : A) → q a ≡ true → p a ≡ true → p (f a) ≡ true)
      → all p l ≡ true
      → all p (map_where q f l) ≡ true
  all-map_where p q f [] h k = k
  all-map_where p q f (a ∷ l) h k = ground (arith, h a, all-map_where p q f l h)

  pub all-append : (p : A → Bool) (l m : List A) → all p (l ++ m) ≡ (all p l && all p m)
  all-append p [] m = refl
  all-append p (a ∷ l) m = ground (arith, all-append p l m)

  -- A row that is not matched passes the tests that it passed.
  pub unmatched :
      (r q : A → Bool) (f : A → A) (a : A)
      → q a ≡ false
      → r a ≡ true
      → r (if q a then f a else a) ≡ true
  unmatched r q f a n h = rw n h
