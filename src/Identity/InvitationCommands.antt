-- ===== src/Identity/InvitationCommands.antt =====
-- mod/backend/domain/identity/dao/team_repository.go: what holds after any number of operations on
-- invitations.
use mathlib.Core.List.{Mem, List}
use marketplace_server.Identity.InvitationRepository.{
  respond_invitation, reissue_invitation, create_team_invitation, revoke_invitation, is_unsettled,
  is_invitation_of, revoke_row, after_revoking, confirm_found,
}
use marketplace_server.Identity.InvitationRows.{
  Sound, Sound-refl, Sound-trans, Sound-map_where, UniqueIds,
}
use marketplace_server.Identity.InvitationHistory.{
  invitations, respond-Sound, create-invitation-Sound, reissue-Sound,
}
use marketplace_server.Identity.Model.{TeamInvitation, StoreError}
use marketplace_server.Platform.{Platform}
use marketplace_server.Sql.{Engine, All-true}
use marketplace_server.Base.{
  String, Bool, ℕ, ◌∷◌, ◌≡◌, false, ok, eqb, arith, [], Result, ◌&&◌, ◌∙◌, err, true, refl, subst,
  sym, ap,
}
use marketplace_server.Identity.Store.{Tables, view, team_invitations}
use marketplace_server.Database.Tx.{>>=-eq-ok, close, raise_if_lem}
use marketplace_server.Database.Statement.{update, select_count_lem, update_lem}

pub data InvitationCommand : Type 0 where
  offer : TeamInvitation → InvitationCommand
  respond : String → String → Bool → ℕ → InvitationCommand
  revoke : String → String → ℕ → InvitationCommand
  reissue : String → String → String → ℕ → ℕ → InvitationCommand

module _ (env : Platform) {e : Engine} where
  abbrev run_invitation_command : InvitationCommand → Tables e → Tables e
  run_invitation_command (offer n) s = (create_team_invitation env n s).1
  run_invitation_command (respond id user_id accept now) s =
      (respond_invitation env id user_id accept now s).1
  run_invitation_command (revoke namespace_id id now) s =
      (revoke_invitation namespace_id id now s).1
  run_invitation_command (reissue namespace_id id new_id now expires_at) s =
      (reissue_invitation env namespace_id id new_id now expires_at s).1

  abbrev pub run_invitation_commands : List InvitationCommand → Tables e → Tables e
  run_invitation_commands [] s = s
  run_invitation_commands (c ∷ rest) s = run_invitation_commands rest (run_invitation_command c s)

module _ {e : Engine} where
  confirm_found-state :
      (b : Bool) (namespace_id id : String) (s s' : Tables e)
      → confirm_found b namespace_id id s ≡ ok (tt, s')
      → s' ≡ s
  unfolding confirm_found
  confirm_found-state true namespace_id id s s' h =
      let (n, t, q, h1) = >>=-eq-ok _ _ s s' tt h in
      (raise_if_lem _ _ t s' h1).1 ∙ (select_count_lem (team_invitations e) _ s t n q).0
  confirm_found-state false namespace_id id s s' h = ground arith

  closed-state :
      (t : Tables e) (r : Result StoreError (Unit {0} × Tables e))
      → ((s' : Tables e) → r ≡ ok (tt, s') → s' ≡ t)
      → (close t r).1 ≡ t
  closed-state t (ok (_, s')) h = h s' refl
  closed-state t (err x) h = refl

  after_revoking-Sound :
      (namespace_id id : String) (now : ℕ) (s : Tables e) (r : Result StoreError (ℕ × Tables e))
      → update
          (team_invitations e)
          (λ i. is_invitation_of namespace_id id i && is_unsettled i)
          (revoke_row now)
          s
        ≡ r
      → Sound (invitations s) (invitations (after_revoking namespace_id id s r).1)
  unfolding after_revoking
  after_revoking-Sound namespace_id id now s (ok (n, t)) h =
      subst (λ v. Sound (invitations s) (invitations v))
        (sym (closed-state t _ (λ s' k. confirm_found-state (eqb n 0) namespace_id id t s' k)))
        (subst (Sound (invitations s))
          (sym (ap (λ r. r.team_invitations) (update_lem (team_invitations e) _ _ s t n h).0))
          (Sound-map_where _ _ (invitations s) (λ unique. All-true _ _ (λ a x. ground arith))
            (λ a. refl)))
  after_revoking-Sound namespace_id id now s (err x) h = Sound-refl (invitations s)

  revoke-Sound :
      (namespace_id id : String) (now : ℕ) (s : Tables e)
      → Sound (invitations s) (invitations (revoke_invitation namespace_id id now s).1)
  unfolding revoke_invitation
  revoke-Sound namespace_id id now s = after_revoking-Sound namespace_id id now s _ refl

module _ (env : Platform) {e : Engine} where
  command-Sound :
      (c : InvitationCommand) (s : Tables e)
      → Sound (invitations s) (invitations (run_invitation_command env c s))
  command-Sound (offer n) s = create-invitation-Sound env n s
  command-Sound (respond id user_id accept now) s = respond-Sound env id user_id accept now s
  command-Sound (revoke namespace_id id now) s = revoke-Sound namespace_id id now s
  command-Sound (reissue namespace_id id new_id now expires_at) s =
      reissue-Sound env namespace_id id new_id now expires_at s

  commands-Sound :
      (commands : List InvitationCommand) (s : Tables e)
      → Sound (invitations s) (invitations (run_invitation_commands env commands s))
  commands-Sound [] s = Sound-refl (invitations s)
  commands-Sound (c ∷ rest) s =
      Sound-trans (invitations s) (invitations (run_invitation_command env c s)) _
        (command-Sound c s) (commands-Sound rest (run_invitation_command env c s))

  -- An invitation that was accepted, rejected or revoked stays in the table as it is, through any
  -- sequence of creations, answers, revocations and replacements, failed ones included, where the
  -- identifiers of the invitations are unique at first; they are unique at the end.
  pub invitation_commands_settled :
      (commands : List InvitationCommand) (s : Tables e)
      → UniqueIds (view e s).team_invitations
      → UniqueIds (view e (run_invitation_commands env commands s)).team_invitations
        × ((x : TeamInvitation)
            → is_unsettled x ≡ false
            → Mem x (view e s).team_invitations
            → Mem x (view e (run_invitation_commands env commands s)).team_invitations)
  invitation_commands_settled commands s unique = commands-Sound commands s unique
