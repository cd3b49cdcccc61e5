-- ===== src/Identity/InvitationWrites.antt =====
-- mod/backend/domain/identity/dao/team_repository.go: what happened where a body on invitations
-- succeeds.
use marketplace_server.Identity.InvitationRepository.{
  respond_invitation_body, settle, is_unsettled, else_conflict,
}
use marketplace_server.Identity.Lock.{first_or_found}
use marketplace_server.Base.{
  Bool, ◌≡◌, String, ok, arith, ℕ, List, filter, ◌==◌, ◌&&◌, ◌∷◌, ltb, ◌∙◌, sym, ap,
}
use marketplace_server.Database.Tx.{Tx, >>=-eq-ok, raise_if_lem}
use marketplace_server.Platform.{Platform}
use marketplace_server.Identity.Model.{TeamInvitation, is_active}
use marketplace_server.Sql.{Engine, count}
use mathlib.Core.Bool.{true}
use marketplace_server.Identity.Store.{Tables, view, team_invitations, users}
use marketplace_server.Database.Statement.{select_lem, select_count_lem}

pub else_conflict_lem :
    {S A : Type 0} (m : Tx S A) (s s' : S) (a : A)
    → else_conflict m s ≡ ok (a, s')
    → m s ≡ ok (a, s')
unfolding else_conflict
else_conflict_lem m s s' a h = ground arith

module _ (env : Platform) {e : Engine} where
  -- An answer that succeeds found an open invitation of the user, who is active.
  pub respond_reads :
      (id user_id : String) (accept : Bool) (now : ℕ) (s s' : Tables e) (answer : String)
      → respond_invitation_body env id user_id accept now s ≡ ok (answer, s')
      → (invitation : TeamInvitation) × (rest : List TeamInvitation) × (filter
            (λ i. i.id == id && i.user_id == user_id)
            (view e s).team_invitations
          ≡ invitation ∷ rest)
        × (is_unsettled invitation ≡ true)
        × (ltb now invitation.expires_at ≡ true)
        × (count (λ u. u.id == user_id && is_active u.status) (view e s).users ≡ 1)
        × (settle env accept user_id invitation now s ≡ ok (tt, s'))
        × (answer ≡ invitation.namespace_id)
  unfolding respond_invitation_body
  respond_reads id user_id accept now s s' answer h =
      let (found, t1, q1, h1) = >>=-eq-ok _ _ s s' answer h in
      let (e1, f1) = select_lem (team_invitations e) _ s t1 found q1 in
      let (invitation, t2, q2, h2) = >>=-eq-ok _ _ t1 s' answer h1 in
      let (e2, (rest, f2)) = first_or_found _ found t1 t2 invitation q2 in
      let (_, t3, q3, h3) = >>=-eq-ok _ _ t2 s' answer h2 in
      let (g3, e3) = raise_if_lem _ _ t2 t3 q3 in
      let (n, t4, q4, h4) = >>=-eq-ok _ _ t3 s' answer h3 in
      let (e4, c4) = select_count_lem (users e) _ t3 t4 n q4 in
      let (_, t5, q5, h5) = >>=-eq-ok _ _ t4 s' answer h4 in
      let (g5, e5) = raise_if_lem _ _ t4 t5 q5 in
      let (_, t6, q6, h6) = >>=-eq-ok _ _ t5 s' answer h5 in
      let back : t3 ≡ s = e3 ∙ e2 ∙ e1 in
      let last : t5 ≡ s = e5 ∙ e4 ∙ back in
      (
        invitation,
        rest,
        sym f1 ∙ f2,
        ground arith,
        ground arith,
        ap (λ t. count (λ u. u.id == user_id && is_active u.status) (view e t).users) (sym back)
            ∙ sym c4
            ∙ ground arith,
        ap (settle env accept user_id invitation now) (sym last) ∙ q6 ∙ ground arith,
        ground arith,
      )
