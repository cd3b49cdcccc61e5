-- ===== src/Identity/InvitationHistory.antt =====
-- mod/backend/domain/identity/dao/team_repository.go: each operation on invitations leaves those that
-- are settled as they are.
use marketplace_server.Identity.InvitationRepository.{
  respond_invitation, reissue_invitation, create_team_invitation, settle, is_unsettled, has_id,
  reissue_invitation_body, create_team_invitation_body, revoke_if, is_invitation_of, replacement_of,
  clashes_invitation,
}
use marketplace_server.Identity.InvitationRows.{
  Sound, Sound-refl, Sound-trans, Sound-map_where, Sound-append, All-key,
}
use marketplace_server.Identity.InvitationWrites.{respond_reads, else_conflict_lem}
use marketplace_server.Identity.Lock.{
  first_or_found, create_lem, as_conflict_lem, first_or_lem, create,
}
use marketplace_server.Identity.TeamRepository.{create_membership}
use marketplace_server.Sql.{Engine, All-true, map_where, All-weaken, filter_head}
use marketplace_server.Platform.{Platform}
use marketplace_server.Identity.Store.{Tables, team_invitations, view, team_memberships, users}
use marketplace_server.Identity.Model.{Check, TeamInvitation, TeamMembership}
use marketplace_server.Base.{
  String, Bool, List, ◌≡◌, ok, ℕ, ap, subst, true, filter, sym, ◌∷◌, arith, refl, ◌∙◌, ◌==◌, eq_iff,
  ◌&&◌,
}
use marketplace_server.Database.Tx.{
  transaction_keeps, >>=-eq-ok, pure-eq-ok, raise_if_lem, transaction_value_keeps,
}
use marketplace_server.Database.Statement.{update_lem, update, select_lem, select_count_lem}
use mathlib.Core.Bool.{false}

-- A row with the key that was asked for has the key of the row found.
same_key :
    (id user_id : String) (c : TeamInvitation) (rest l : List TeamInvitation)
    → filter (λ i. i.id == id && i.user_id == user_id) l ≡ c ∷ rest
    → (a : TeamInvitation) → (a.id == id && a.user_id == user_id) ≡ true
    → has_id c.id a ≡ true
same_key id user_id c rest l q a k = ground (
  arith,
  filter_head (λ i. i.id == id && i.user_id == user_id) l c rest q,
  eq_iff a.id id,
  eq_iff c.id id,
  eq_iff a.id c.id,
)

same_invitation_key :
    (namespace_id id : String) (c : TeamInvitation) (rest l : List TeamInvitation)
    → filter (is_invitation_of namespace_id id) l ≡ c ∷ rest
    → (a : TeamInvitation) → is_invitation_of namespace_id id a ≡ true
    → has_id c.id a ≡ true
same_invitation_key namespace_id id c rest l q a k = ground (
  arith,
  filter_head (is_invitation_of namespace_id id) l c rest q,
  eq_iff a.id id,
  eq_iff c.id id,
  eq_iff a.id c.id,
)

module _ {e : Engine} where
  abbrev pub invitations : Tables e → List TeamInvitation
  invitations s = (view e s).team_invitations

  -- An update of the row with the key of an open invitation.
  update_one-Sound :
      (p : TeamInvitation → Bool) (f : TeamInvitation → TeamInvitation) (s s' : Tables e) (n : ℕ)
      (c : TeamInvitation) (rest : List TeamInvitation)
      → ((a : TeamInvitation) → p a ≡ true → has_id c.id a ≡ true)
      → filter p (invitations s) ≡ c ∷ rest
      → is_unsettled c ≡ true
      → ((a : TeamInvitation) → (f a).id ≡ a.id)
      → update (team_invitations e) (has_id c.id) f s ≡ ok (n, s')
      → Sound (invitations s) (invitations s')
  update_one-Sound p f s s' n c rest key q unsettled same h =
      let after : invitations s' ≡ map_where (has_id c.id) f (invitations s) =
        ap (λ r. r.team_invitations) (update_lem (team_invitations e) _ f s s' n h).0 in
      subst (Sound (invitations s)) (sym after) (
        Sound-map_where (has_id c.id) f (invitations s)
          (λ unique.
            All-weaken (λ a k x. ap is_unsettled (k x) ∙ unsettled) (invitations s)
              (All-key p (has_id c.id) (invitations s) c rest key q (unique c.id)))
          same)

  -- An insert that clashes with no row.
  create-Sound :
      (check : Check) (n : TeamInvitation) (s s' : Tables e)
      → create (team_invitations e) check (clashes_invitation n) n s ≡ ok (tt, s')
      → Sound (invitations s) (invitations s')
  create-Sound check n s s' h =
      let (_, fresh, after) = create_lem (team_invitations e) check _ n s s' h in
      subst (Sound (invitations s)) (sym (ap (λ r. r.team_invitations) after))
        (Sound-append n (invitations s) fresh)

module _ (env : Platform) {e : Engine} where
  create_membership-invitations :
      (m : TeamMembership) (s s' : Tables e)
      → create_membership env m s ≡ ok (tt, s')
      → invitations s' ≡ invitations s
  unfolding create_membership
  create_membership-invitations m s s' h =
      ap (λ r. r.team_invitations) (create_lem (team_memberships e) _ _ m s s' h).2

  settle-Sound :
      (p : TeamInvitation → Bool) (accept : Bool) (user_id : String) (now : ℕ) (s s' : Tables e)
      (c : TeamInvitation) (rest : List TeamInvitation)
      → ((a : TeamInvitation) → p a ≡ true → has_id c.id a ≡ true)
      → filter p (invitations s) ≡ c ∷ rest
      → is_unsettled c ≡ true
      → settle env accept user_id c now s ≡ ok (tt, s')
      → Sound (invitations s) (invitations s')
  unfolding settle
  settle-Sound p true user_id now s s' c rest key q unsettled h =
      let (_, t, q1, h1) = >>=-eq-ok _ _ s s' tt h in
      let same = create_membership-invitations _ s t (else_conflict_lem _ s t tt q1) in
      let (n, u, q2, h2) = >>=-eq-ok _ _ t s' tt h1 in
      let done : u ≡ s' = ground arith in
      subst (λ l. Sound l (invitations s')) same
        (subst (λ v. Sound (invitations t) (invitations v)) done
          (update_one-Sound p _ t u n c rest key (ap (filter p) same ∙ q) unsettled (λ a. refl) q2))
  settle-Sound p false user_id now s s' c rest key q unsettled h =
      let (n, u, q2, h2) = >>=-eq-ok _ _ s s' tt h in
      let done : u ≡ s' = ground arith in
      subst (λ v. Sound (invitations s) (invitations v)) done
        (update_one-Sound p _ s u n c rest key q unsettled (λ a. refl) q2)

  pub respond-Sound :
      (id user_id : String) (accept : Bool) (now : ℕ) (s : Tables e)
      → Sound (invitations s) (invitations (respond_invitation env id user_id accept now s).1)
  unfolding respond_invitation
  respond-Sound id user_id accept now s =
      transaction_value_keeps (λ t. Sound (invitations s) (invitations t)) _ s
        (λ answer s' h.
          let (c, rest, q, unsettled, _, _, settled, _) =
            respond_reads env id user_id accept now s s' answer h in
          settle-Sound _ accept user_id now s s' c rest
            (λ a k. same_key id user_id c rest (invitations s) q a k) q unsettled settled)
        (Sound-refl (invitations s))

  pub create-invitation-Sound :
      (n : TeamInvitation) (s : Tables e)
      → Sound (invitations s) (invitations (create_team_invitation env n s).1)
  unfolding create_team_invitation create_team_invitation_body
  create-invitation-Sound n s =
      transaction_keeps (λ t. Sound (invitations s) (invitations t)) _ s
        (λ s' h.
          let (k, t, q, r) = >>=-eq-ok _ _ s s' tt h in
          Sound-trans (invitations s) (invitations t) (invitations s')
            (subst (Sound (invitations s))
              (sym (ap (λ r. r.team_invitations) (update_lem (team_invitations e) _ _ s t k q).0))
              (Sound-map_where _ _ (invitations s) (λ unique. All-true _ _ (λ a x. ground arith))
                (λ a. refl)))
            (create-Sound _ n t s' (as_conflict_lem env _ t s' r)))
        (Sound-refl (invitations s))

  revoke_if-Sound :
      (b : Bool) (p : TeamInvitation → Bool) (now : ℕ) (s s' : Tables e) (c : TeamInvitation)
      (rest : List TeamInvitation)
      → is_unsettled c ≡ b
      → ((a : TeamInvitation) → p a ≡ true → has_id c.id a ≡ true)
      → filter p (invitations s) ≡ c ∷ rest
      → revoke_if env b c now s ≡ ok (tt, s')
      → Sound (invitations s) (invitations s')
  unfolding revoke_if
  revoke_if-Sound true p now s s' c rest unsettled key q h =
      let (n, u, q2, h2) = >>=-eq-ok _ _ s s' tt h in
      subst (λ v. Sound (invitations s) (invitations v)) (pure-eq-ok tt tt u s' h2)
        (update_one-Sound p _ s u n c rest key q unsettled (λ a. refl) q2)
  revoke_if-Sound false p now s s' c rest settled key q h =
      subst (λ v. Sound (invitations s) (invitations v)) (pure-eq-ok tt tt s s' h)
        (Sound-refl (invitations s))

  reissue_body-Sound :
      (namespace_id id new_id : String) (now expires_at : ℕ) (s s' : Tables e)
      (answer : TeamInvitation)
      → reissue_invitation_body env namespace_id id new_id now expires_at s ≡ ok (answer, s')
      → Sound (invitations s) (invitations s')
  unfolding reissue_invitation_body
  reissue_body-Sound namespace_id id new_id now expires_at s s' answer h =
      let (found, t1, q1, h1) = >>=-eq-ok _ _ s s' answer h in
      let (e1, f1) = select_lem (team_invitations e) _ s t1 found q1 in
      let (old, t2, q2, h2) = >>=-eq-ok _ _ t1 s' answer h1 in
      let (e2, (rest, f2)) = first_or_found _ found t1 t2 old q2 in
      let (active, t3, q3, h3) = >>=-eq-ok _ _ t2 s' answer h2 in
      let (e3, _) = select_lem (users e) _ t2 t3 active (else_conflict_lem _ t2 t3 active q3) in
      let (_, t4, q4, h4) = >>=-eq-ok _ _ t3 s' answer h3 in
      let e4 = first_or_lem _ active t3 t4 _ q4 in
      let (n, t5, q5, h5) = >>=-eq-ok _ _ t4 s' answer h4 in
      let (e5, _) = select_count_lem (team_memberships e) _ t4 t5 n q5 in
      let (_, t6, q6, h6) = >>=-eq-ok _ _ t5 s' answer h5 in
      let (_, e6) = raise_if_lem _ _ t5 t6 q6 in
      let (_, t7, q7, h7) = >>=-eq-ok _ _ t6 s' answer h6 in
      let (_, t8, q8, h8) = >>=-eq-ok _ _ t7 s' answer h7 in
      let back : t6 ≡ s = e6 ∙ e5 ∙ e4 ∙ e3 ∙ e2 ∙ e1 in
      let done : t8 ≡ s' = pure-eq-ok _ _ t8 s' h8 in
      Sound-trans (invitations s) (invitations t7) (invitations s')
        (revoke_if-Sound (is_unsettled old) (is_invitation_of namespace_id id) now s t7 old rest
          refl
          (λ a k. same_invitation_key namespace_id id old rest (invitations s) (sym f1 ∙ f2) a k)
          (sym f1 ∙ f2) (ap (revoke_if env (is_unsettled old) old now) (sym back) ∙ q7))
        (subst (λ v. Sound (invitations t7) (invitations v)) done
          (create-Sound _ (replacement_of old namespace_id new_id now expires_at) t7 t8
            (as_conflict_lem env _ t7 t8 q8)))

  pub reissue-Sound :
      (namespace_id id new_id : String) (now expires_at : ℕ) (s : Tables e)
      → Sound
          (invitations s)
          (invitations (reissue_invitation env namespace_id id new_id now expires_at s).1)
  unfolding reissue_invitation
  reissue-Sound namespace_id id new_id now expires_at s =
      transaction_value_keeps (λ t. Sound (invitations s) (invitations t)) _ s
        (λ answer s' h. reissue_body-Sound namespace_id id new_id now expires_at s s' answer h)
        (Sound-refl (invitations s))
