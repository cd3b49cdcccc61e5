-- ===== src/Database/Statement.antt =====
-- The statements that the methods of `Repository` send to the database, each on one table, and what
-- a successful one does to the view.
use marketplace_server.Sql.{
  Answer, answered, failed, Engine, count, map_where, length-filter, pairs,
}
use marketplace_server.Database.Tables.{Tables, view, Slot}
use marketplace_server.Identity.Model.{StoreError, database}
use marketplace_server.Database.Tx.{Tx}
use marketplace_server.Base.{
  Bool, List, Result, ℕ, length, ok, ◌≡◌, err, filter, any, ap, arith, if◌then◌else◌, not, false,
  refl, sym, ◌++◌, ◌∙◌, ◌∷◌, [],
}

-- An error of the driver ends the transaction as it is.
abbrev stored : {S T A : Type 0} → (T → A × S) → Answer T → Result StoreError (A × S)
stored next (answered t) = ok (next t)
stored next (failed m) = err (database m)

module _ {e : Engine} {A : Type 0} (slot : Slot e A) where
  unfoldable pub select : (A → Bool) → Tx (Tables e) (List A)
  select p s = stored (λ found. (found, s)) (e.select p (slot.get s))

  -- SELECT COUNT(*)
  unfoldable pub select_count : (A → Bool) → Tx (Tables e) ℕ
  select_count p s = stored (λ found. (length found, s)) (e.select p (slot.get s))

  unfoldable pub insert : (A → Bool) → A → Tx (Tables e) (Unit {0})
  insert clash a s = stored (λ t. (tt, slot.put s t)) (e.insert clash a (slot.get s))

  unfoldable pub insert_ignore : (A → Bool) → A → Tx (Tables e) (Unit {0})
  insert_ignore clash a s = stored (λ t. (tt, slot.put s t)) (e.insert_ignore clash a (slot.get s))

  unfoldable pub update : (A → Bool) → (A → A) → Tx (Tables e) ℕ
  update p f s = stored (λ t. (t.1, slot.put s t.0)) (e.update p f (slot.get s))

  unfoldable pub delete : (A → Bool) → Tx (Tables e) (Unit {0})
  delete p s = stored (λ t. (tt, slot.put s t)) (e.delete p (slot.get s))

-- What must have happened where a statement succeeds.
stored-eq-ok :
    {S T A : Type 0} (next : T → A × S) (r : Answer T) (x : A × S)
    → stored next r ≡ ok x
    → (t : T) × (r ≡ answered t) × (next t ≡ x)
stored-eq-ok next (answered t) x h = (t, refl, ground arith)
stored-eq-ok next (failed m) x h = cc

module _ {e : Engine} {A : Type 0} (slot : Slot e A) where
  pub select_lem :
      (p : A → Bool) (s s' : Tables e) (found : List A)
      → select slot p s ≡ ok (found, s')
      → (s' ≡ s) × (found ≡ filter p (slot.rows (view e s)))
  unfolding select
  select_lem p s s' found h =
      let (t, q, x) = stored-eq-ok _ _ _ h in
      (
        ap (λ y. y.1) (sym x),
        ap (λ y. y.0) (sym x)
            ∙ e.rows-select p (slot.get s) t q
            ∙ ap (filter p) (sym (slot.view-get s)),
      )

  pub select_count_lem :
      (p : A → Bool) (s s' : Tables e) (n : ℕ)
      → select_count slot p s ≡ ok (n, s')
      → (s' ≡ s) × (n ≡ count p (slot.rows (view e s)))
  unfolding select_count
  select_count_lem p s s' n h =
      let (t, q, x) = stored-eq-ok _ _ _ h in
      (
        ap (λ y. y.1) (sym x),
        ap (λ y. y.0) (sym x)
            ∙ ap length (e.rows-select p (slot.get s) t q)
            ∙ ap (λ l. length (filter p l)) (sym (slot.view-get s))
            ∙ length-filter p (slot.rows (view e s)),
      )

  -- The view after a table was written.
  view-written :
      (s s' : Tables e) (t : e.Table A) (l : List A)
      → slot.put s t ≡ s'
      → e.rows t ≡ l
      → view e s' ≡ slot.set (view e s) l
  view-written s s' t l x y = ap (view e) (sym x) ∙ slot.view-put s t ∙ ap (slot.set (view e s)) y

  pub insert_lem :
      (clash : A → Bool) (a : A) (s s' : Tables e)
      → insert slot clash a s ≡ ok (tt, s')
      → (any clash (slot.rows (view e s)) ≡ false)
        × (view e s' ≡ slot.set (view e s) (slot.rows (view e s) ++ a ∷ []))
  unfolding insert
  insert_lem clash a s s' h =
      let (t, q, x) = stored-eq-ok _ _ _ h in
      let (fresh, after) = e.rows-insert clash a (slot.get s) t q in
      (
        ap (any clash) (slot.view-get s) ∙ fresh,
        view-written s s' t _ (ap (λ y. y.1) x)
            (after ∙ ap (λ l. l ++ a ∷ []) (sym (slot.view-get s))),
      )

  pub insert_ignore_lem :
      (clash : A → Bool) (a : A) (s s' : Tables e)
      → insert_ignore slot clash a s ≡ ok (tt, s')
      → view e s'
        ≡ slot.set (view e s) (
            if any clash (slot.rows (view e s))
            then slot.rows (view e s)
            else slot.rows (view e s) ++ a ∷ [])
  unfolding insert_ignore
  insert_ignore_lem clash a s s' h =
      let (t, q, x) = stored-eq-ok _ _ _ h in
      view-written s s' t _ (ap (λ y. y.1) x) (
        e.rows-insert_ignore clash a (slot.get s) t q
        ∙ ap (λ l. if any clash l then l else l ++ a ∷ []) (sym (slot.view-get s)))

  pub update_lem :
      (p : A → Bool) (f : A → A) (s s' : Tables e) (n : ℕ)
      → update slot p f s ≡ ok (n, s')
      → (view e s' ≡ slot.set (view e s) (map_where p f (slot.rows (view e s))))
        × (n ≡ count p (slot.rows (view e s)))
  unfolding update
  update_lem p f s s' n h =
      let (t, q, x) = stored-eq-ok _ _ _ h in
      let (after, affected) = e.rows-update p f (slot.get s) t.0 t.1 q in
      (
        view-written s s' t.0 _ (ap (λ y. y.1) x)
            (after ∙ ap (map_where p f) (sym (slot.view-get s))),
        ap (λ y. y.0) (sym x) ∙ affected ∙ ap (count p) (sym (slot.view-get s)),
      )

  pub delete_lem :
      (p : A → Bool) (s s' : Tables e)
      → delete slot p s ≡ ok (tt, s')
      → view e s' ≡ slot.set (view e s) (filter (λ a. not (p a)) (slot.rows (view e s)))
  unfolding delete
  delete_lem p s s' h =
      let (t, q, x) = stored-eq-ok _ _ _ h in
      view-written s s' t _ (ap (λ y. y.1) x)
        (e.rows-delete p (slot.get s) t q ∙ ap (filter (λ a. not (p a))) (sym (slot.view-get s)))

module _ {e : Engine} {A B : Type 0} (left : Slot e A) (right : Slot e B) where
  -- SELECT … FROM left JOIN right ON …
  unfoldable pub join : (A → B → Bool) → Tx (Tables e) (List (A × B))
  join p s = stored (λ found. (found, s)) (e.join p (left.get s) (right.get s))

  pub join_lem :
      (p : A → B → Bool) (s s' : Tables e) (found : List (A × B))
      → join p s ≡ ok (found, s')
      → (s' ≡ s) × (found ≡ pairs p (left.rows (view e s)) (right.rows (view e s)))
  unfolding join
  join_lem p s s' found h =
      let (t, q, x) = stored-eq-ok _ _ _ h in
      (
        ap (λ y. y.1) (sym x),
        ap (λ y. y.0) (sym x)
            ∙ e.rows-join p (left.get s) (right.get s) t q
            ∙ ap (λ l. pairs p l (e.rows (right.get s))) (sym (left.view-get s))
            ∙ ap (pairs p (left.rows (view e s))) (sym (right.view-get s)),
      )
