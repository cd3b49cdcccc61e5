-- ===== src/Identity/InvitationRows.antt =====
-- mod/backend/domain/identity/dao/team_repository.go: what one statement on the invitations keeps.
use mathlib.Core.List.{Mem, mem-append_left, Memᴰ, List}
use mathlib.Core.List.Memᴰ as Memᴰ
use mathlib.Core.Logic.{∥∥₁_map}
use marketplace_server.Identity.InvitationRepository.{is_unsettled, has_id, clashes_invitation}
use marketplace_server.Identity.Model.{TeamInvitation}
use marketplace_server.Base.{
  Bool, String, ◌≡◌, false, true, ◌++◌, ◌≤◌, ◌∷◌, [], inl, Bool-cases, ap, arith, inr, ◌==◌, eq_iff,
  subst, any, filter, ◌<◌, length,
}
use marketplace_server.Sql.{
  All, map_where, count-map_where, count_of_any-false, count-append, count, All-weaken,
  All-false_of_count, length-filter,
}

-- The primary key of team_invitations.
abbrev pub UniqueIds : List TeamInvitation → Type 0
UniqueIds l = (id : String) → count (has_id id) l ≤ 1

-- The invitations that were accepted, rejected or revoked are there unchanged.
abbrev pub KeepsSettled : List TeamInvitation → List TeamInvitation → Type 0
KeepsSettled l m = (x : TeamInvitation) → is_unsettled x ≡ false → Mem x l → Mem x m

-- A change of the table that keeps the key, and the settled invitations.
abbrev pub Sound : List TeamInvitation → List TeamInvitation → Type 0
Sound l m = UniqueIds l → UniqueIds m × KeepsSettled l m

pub Sound-refl : (l : List TeamInvitation) → Sound l l
Sound-refl l unique = (unique, λ x h i. i)

pub Sound-trans : (k l m : List TeamInvitation) → Sound k l → Sound l m → Sound k m
Sound-trans k l m f g unique =
    let (u, a) = f unique in let (v, b) = g u in (v, λ x h i. b x h (a x h i))

kept_where :
    (p : TeamInvitation → Bool) (f : TeamInvitation → TeamInvitation) (l : List TeamInvitation)
    (x : TeamInvitation)
    → All (λ a. p a ≡ true → is_unsettled a ≡ true) l
    → is_unsettled x ≡ false
    → Memᴰ x l
    → Memᴰ x (map_where p f l)
kept_where p f [] x k h i = i
kept_where p f (a ∷ l) x k h i = elim (Memᴰ.cases_cons i) [
  | inl e ↦ Memᴰ.head (ground (arith, ap is_unsettled e, k.0))
  | inr m ↦ Memᴰ.tail (kept_where p f l x k.1 h m)
]

-- An update that changes open invitations only, and no identifier.
pub Sound-map_where :
    (p : TeamInvitation → Bool) (f : TeamInvitation → TeamInvitation) (l : List TeamInvitation)
    → (UniqueIds l → All (λ a. p a ≡ true → is_unsettled a ≡ true) l)
    → ((a : TeamInvitation) → (f a).id ≡ a.id)
    → Sound l (map_where p f l)
Sound-map_where p f l when same unique = (
  λ id. rw (count-map_where (has_id id) p f l (λ a k. ap (λ x. x == id) (same a))) (unique id),
  λ x h i. ∥∥₁_map {B = Memᴰ x (map_where p f l)} i (λ d. kept_where p f l x (when unique) h d),
)

-- A row that clashes with none is added.
pub Sound-append :
    (n : TeamInvitation) (l : List TeamInvitation)
    → any (clashes_invitation n) l ≡ false
    → Sound l (l ++ n ∷ [])
Sound-append n l fresh unique = (λ id. new_id id (unique id), λ x h i. mem-append_left (n ∷ []) i)
  where
    new_id : (id : String) → count (has_id id) l ≤ 1 → count (has_id id) (l ++ n ∷ []) ≤ 1
    new_id id u = elim (Bool-cases (has_id id n)) [
      | inl k ↦
          (let none_left : count (has_id n.id) l ≡ 0 =
              count_of_any-false _ (clashes_invitation n) l (λ o t. ground arith) fresh in
            let same : n.id ≡ id = (eq_iff _ _).0 k in
            ground (
              arith,
              count-append (has_id id) l (n ∷ []),
              subst (λ x. count (has_id x) l ≡ 0) same none_left,
            ))
      | inr k ↦ ground (arith, count-append (has_id id) l (n ∷ []))
    ]

count_le :
    {A : Type 0} (p q : A → Bool) (l : List A)
    → ((a : A) → p a ≡ true → q a ≡ true)
    → count p l ≤ count q l
count_le p q [] h = omega arith
count_le p q (a ∷ l) h = ground (arith, h a, count_le p q l h)

-- Where a key has one row at most, and the row found has it, the row with the key is the row found.
pub All-key :
    {A : Type 0} (p q : A → Bool) (l : List A) (c : A) (rest : List A)
    → ((a : A) → p a ≡ true → q a ≡ true)
    → filter p l ≡ c ∷ rest
    → count q l ≤ 1
    → All (λ a. q a ≡ true → a ≡ c) l
All-key p q [] c rest h e k = tt
All-key p q (a ∷ l) c rest h e k = elim (Bool-cases (p a)) [
  | inl x ↦ (
    λ y. ground arith,
    All-weaken (λ b z w. cc) l (All-false_of_count q l (ground (arith, h a x))),
  )
  | inr x ↦
      (let found : filter p l ≡ c ∷ rest = ground arith in
        let some_left : 0 < count q l =
          ground (arith, count_le p q l h, length-filter p l, ap length found) in
        (λ y. ground arith, All-key p q l c rest h found (ground arith)))
]
