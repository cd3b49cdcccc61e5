-- ===== src/Identity/TeamOwners.antt =====
-- mod/backend/domain/identity/dao/team_repository.go: a team that has an owner keeps one.
use marketplace_server.Sql.{
  Engine, count, map_where, any_of_count, All, any-map_where, All-weaken, any-filter,
}
use marketplace_server.Identity.Store.{Tables, Rows, view, team_memberships}
use marketplace_server.Identity.TeamRepository.{
  is_member, is_other_owner, guard_owner, ensure_other_owner,
}
use marketplace_server.Base.{
  Bool, String, List, any, ◌≡◌, ◌≤◌, ok, true, ◌==◌, arith, filter, ◌&&◌, ◌∷◌, not, [], ℕ,
  Bool-cases, inl, inr, ap, eq_iff, if◌then◌else◌,
}
use marketplace_server.Identity.Model.{TeamMembership}
use marketplace_server.Role.{is_owner, TeamRole}
use marketplace_server.Database.Tx.{>>=-eq-ok}
use marketplace_server.Database.Statement.{select_count_lem}
use mathlib.Core.Bool.{false}

abbrev pub owns : String → TeamMembership → Bool
owns namespace_id m = m.namespace_id == namespace_id && is_owner m.role

abbrev pub has_owner : String → Rows → Bool
has_owner namespace_id r = any (owns namespace_id) r.team_memberships

-- The primary key of team_memberships.
pub record UniqueMembers (r : Rows) : Type 0 where
  pub at_most_one :
      (namespace_id user_id : String)
      → count (is_member namespace_id user_id) r.team_memberships ≤ 1

module _ {e : Engine} where
  -- Behind the guard the team has an owner apart from the given user, or none was asked for.
  pub guard_owner_lem :
      (b : Bool) (namespace_id user_id : String) (s s' : Tables e)
      → guard_owner b namespace_id user_id s ≡ ok (tt, s')
      → (s' ≡ s)
        × (b ≡ true → any (is_other_owner namespace_id user_id) (view e s).team_memberships ≡ true)
  unfolding guard_owner ensure_other_owner
  guard_owner_lem false namespace_id user_id s s' h = (ground arith, λ k. cc)
  guard_owner_lem true namespace_id user_id s s' h =
      let (n, t, q, r) = >>=-eq-ok _ _ s s' tt h in
      let (same, counted) = select_count_lem (team_memberships e) _ s t n q in
      (
        ground arith,
        λ k.
            any_of_count (is_other_owner namespace_id user_id) ((view e s).team_memberships)
              (ground arith),
      )

-- Rows of other users are not touched by an update of one membership.
pub other_owner_kept :
    (namespace_id user_id : String) (f : TeamMembership → TeamMembership) (l : List TeamMembership)
    → any (is_other_owner namespace_id user_id) l ≡ true
    → any (owns namespace_id) (map_where (is_member namespace_id user_id) f l) ≡ true
other_owner_kept namespace_id user_id f [] h = h
other_owner_kept namespace_id user_id f (m ∷ l) h =
    ground (arith, other_owner_kept namespace_id user_id f l)

pub other_owner_left :
    (namespace_id user_id : String) (l : List TeamMembership)
    → any (is_other_owner namespace_id user_id) l ≡ true
    → any (owns namespace_id) (filter (λ m. not (is_member namespace_id user_id m)) l) ≡ true
other_owner_left namespace_id user_id [] h = h
other_owner_left namespace_id user_id (m ∷ l) h =
    ground (arith, other_owner_left namespace_id user_id l)

-- A row of the written membership that was an owner's still is, unless it is the demoted one.
changed_row :
    (namespace_id user_id ns : String) (role : TeamRole) (now : ℕ) (c m : TeamMembership)
    → ((is_owner c.role && not (is_owner role)) && namespace_id == ns) ≡ false
    → (is_member namespace_id user_id m ≡ true → m ≡ c)
    → owns ns m ≡ true
    → owns ns
        (if is_member namespace_id user_id m then record m { role = role; updated_at = now } else m)
      ≡ true
changed_row namespace_id user_id ns role now c m e k o =
    elim (Bool-cases (is_member namespace_id user_id m)) [
      | inl t ↦ ground (
        arith,
        ap (λ (x : TeamMembership). x.role) (k t),
        eq_iff m.namespace_id namespace_id,
        eq_iff m.namespace_id ns,
        eq_iff namespace_id ns,
      )
      | inr t ↦ ground arith
    ]

-- An update of one membership leaves every team with an owner, if the guard was asked before an
-- owner was demoted.
pub changed_owner :
    (namespace_id user_id ns : String) (role : TeamRole) (now : ℕ) (c : TeamMembership)
    (l : List TeamMembership)
    → All (λ m. is_member namespace_id user_id m ≡ true → m ≡ c) l
    → ((is_owner c.role && not (is_owner role)) ≡ true
        → any (is_other_owner namespace_id user_id) l ≡ true)
    → any (owns ns) l ≡ true
    → any (owns ns) (
        map_where
          (is_member namespace_id user_id)
          (λ m. record m { role = role; updated_at = now })
          l)
      ≡ true
changed_owner namespace_id user_id ns role now c l same others h =
    elim (Bool-cases ((is_owner c.role && not (is_owner role)) && namespace_id == ns)) [
      | inl e ↦
          (let here : namespace_id ≡ ns = (eq_iff namespace_id ns).0 (ground arith) in
            rw (← here) (
              other_owner_kept namespace_id user_id
                (λ m. record m { role = role; updated_at = now }) l (others (ground arith))))
      | inr e ↦
          any-map_where (owns ns) (is_member namespace_id user_id) _ l
            (All-weaken (λ m. changed_row namespace_id user_id ns role now c m e) l same) h
    ]

left_row :
    (namespace_id user_id ns : String) (c m : TeamMembership)
    → (is_owner c.role && namespace_id == ns) ≡ false
    → (is_member namespace_id user_id m ≡ true → m ≡ c)
    → owns ns m ≡ true
    → not (is_member namespace_id user_id m) ≡ true
left_row namespace_id user_id ns c m e k o = elim (Bool-cases (is_member namespace_id user_id m)) [
  | inl t ↦ ground (
    arith,
    ap (λ (x : TeamMembership). x.role) (k t),
    eq_iff m.namespace_id namespace_id,
    eq_iff m.namespace_id ns,
    eq_iff namespace_id ns,
  )
  | inr t ↦ ground arith
]

pub removed_owner :
    (namespace_id user_id ns : String) (c : TeamMembership) (l : List TeamMembership)
    → All (λ m. is_member namespace_id user_id m ≡ true → m ≡ c) l
    → (is_owner c.role ≡ true → any (is_other_owner namespace_id user_id) l ≡ true)
    → any (owns ns) l ≡ true
    → any (owns ns) (filter (λ m. not (is_member namespace_id user_id m)) l) ≡ true
removed_owner namespace_id user_id ns c l same others h =
    elim (Bool-cases (is_owner c.role && namespace_id == ns)) [
      | inl e ↦
          (let here : namespace_id ≡ ns = (eq_iff namespace_id ns).0 (ground arith) in
            rw (← here) (other_owner_left namespace_id user_id l (others (ground arith))))
      | inr e ↦
          any-filter (owns ns) _ l (All-weaken (λ m. left_row namespace_id user_id ns c m e) l same)
            h
    ]
