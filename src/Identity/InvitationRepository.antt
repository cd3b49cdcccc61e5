-- ===== src/Identity/InvitationRepository.antt =====
-- mod/backend/domain/identity/dao/team_repository.go: invitations, their answers and replacements.
use marketplace_server.Database.Tx.{
  Tx, pure, ◌>>=◌, ◌>>◌, transaction, close, raise_if, transaction_value,
}
use marketplace_server.Identity.TeamRepository.{create_membership, is_member}
use marketplace_server.Identity.Model.{
  TeamInvitation, StoreError, Check, conflict, not_found, is_active,
}
use marketplace_server.Base.{
  Bool, String, ℕ, Result, not, ok, some, ◌==◌, err, is_some, ◌&&◌, ◌||◌, eqb, none, leb, ltb,
}
use marketplace_server.Platform.{Platform}
use marketplace_server.Sql.{Engine}
use marketplace_server.Identity.Store.{Tables, team_invitations, first_or, users, team_memberships}
use marketplace_server.Database.Statement.{select, update, select_count}
use mathlib.Core.Bool.{true, false}
use marketplace_server.Identity.Lock.{as_conflict, create}
use marketplace_server.Identity.Hooks.{team_invitation_before_create}

-- accepted_at IS NULL AND rejected_at IS NULL AND revoked_at IS NULL
abbrev pub is_unsettled : TeamInvitation → Bool
is_unsettled i = not (is_some i.accepted_at || is_some i.rejected_at || is_some i.revoked_at)

abbrev pub is_invitation_of : String → String → TeamInvitation → Bool
is_invitation_of namespace_id id i = i.namespace_id == namespace_id && i.id == id

-- The primary key, and the index `uidx_team_invitations_pending` of dao/migrate.go.
abbrev pub clashes_invitation : TeamInvitation → TeamInvitation → Bool
clashes_invitation n o =
    o.id == n.id
    || (is_unsettled o
        && is_unsettled n
        && o.namespace_id == n.namespace_id
        && o.user_id == n.user_id)

abbrev pub revoke_row : ℕ → TeamInvitation → TeamInvitation
revoke_row now i = record i { revoked_at = some now; updated_at = now }

-- An error of a statement that the method takes for a conflict, whatever it is.
unfoldable pub else_conflict : {S A : Type 0} → Tx S A → Tx S A
else_conflict m s = elim (m s) [ ok x ↦ ok x | err _ ↦ err conflict ]

-- `Model(&i).Updates(…)`: the row with the primary key.
abbrev pub has_id : String → TeamInvitation → Bool
has_id id i = i.id == id

abbrev pub replacement_of : TeamInvitation → String → String → ℕ → ℕ → TeamInvitation
replacement_of old namespace_id new_id now expires_at = record {
  id = new_id;
  namespace_id = namespace_id;
  user_id = old.user_id;
  role = old.role;
  invited_by_user_id = old.invited_by_user_id;
  expires_at = expires_at;
  accepted_at = none;
  rejected_at = none;
  revoked_at = none;
  created_at = now;
  updated_at = now;
}

module _ (env : Platform) {e : Engine} where
  unfoldable pub create_team_invitation_body : TeamInvitation → Tx (Tables e) (Unit {0})
  create_team_invitation_body invitation = do
    update (team_invitations e)
        (λ i.
          i.namespace_id == invitation.namespace_id
          && i.user_id == invitation.user_id
          && is_unsettled i
          && leb i.expires_at invitation.created_at)
        (revoke_row invitation.created_at)
    as_conflict env (
        create (team_invitations e) (team_invitation_before_create env invitation)
          (clashes_invitation invitation) invitation)

  -- `CreateTeamInvitation`
  unfoldable pub create_team_invitation : TeamInvitation → Tables e → Check × Tables e
  unfolding create_team_invitation_body
  create_team_invitation invitation = transaction (create_team_invitation_body invitation)

  -- What an accepted invitation writes, and a rejected one.
  unfoldable pub settle : Bool → String → TeamInvitation → ℕ → Tx (Tables e) (Unit {0})
  settle true user_id invitation now = do
    else_conflict (
        create_membership env (record {
          namespace_id = invitation.namespace_id;
          user_id = user_id;
          role = invitation.role;
          created_at = now;
          updated_at = now;
        }))
    update (team_invitations e) (has_id invitation.id)
        (λ i. record i { accepted_at = some now; updated_at = now })
    pure tt
  settle false user_id invitation now = do
    update (team_invitations e) (has_id invitation.id)
        (λ i. record i { rejected_at = some now; updated_at = now })
    pure tt

  unfoldable pub respond_invitation_body : String → String → Bool → ℕ → Tx (Tables e) String
  respond_invitation_body id user_id accept now = do
    found ← select (team_invitations e) (λ i. i.id == id && i.user_id == user_id)
    invitation ← first_or not_found found
    raise_if (not (is_unsettled invitation) || not (ltb now invitation.expires_at)) conflict
    active_users ← select_count (users e) (λ u. u.id == user_id && is_active u.status)
    raise_if (not (eqb active_users 1)) conflict
    settle accept user_id invitation now
    pure invitation.namespace_id

  -- `RespondInvitation`
  unfoldable pub respond_invitation :
      String → String → Bool → ℕ → Tables e → Result StoreError String × Tables e
  unfolding respond_invitation_body
  respond_invitation id user_id accept now =
      transaction_value (respond_invitation_body id user_id accept now)

  -- An invitation that is still open is revoked.
  unfoldable pub revoke_if : Bool → TeamInvitation → ℕ → Tx (Tables e) (Unit {0})
  revoke_if true old now = update (team_invitations e) (has_id old.id) (revoke_row now) >> pure tt
  revoke_if false old now = pure tt

  unfoldable pub reissue_invitation_body :
      String → String → String → ℕ → ℕ → Tx (Tables e) TeamInvitation
  reissue_invitation_body namespace_id id new_id now expires_at = do
    found ← select (team_invitations e) (is_invitation_of namespace_id id)
    old ← first_or not_found found
    active ← else_conflict (select (users e) (λ u. u.id == old.user_id && is_active u.status))
    first_or conflict active
    memberships ← select_count (team_memberships e) (is_member namespace_id old.user_id)
    raise_if (ltb 0 memberships) conflict
    revoke_if (is_unsettled old) old now
    let replacement = replacement_of old namespace_id new_id now expires_at
    as_conflict env (
        create (team_invitations e) (team_invitation_before_create env replacement)
          (clashes_invitation replacement) replacement)
    pure replacement

  -- `ReissueInvitation`
  unfoldable pub reissue_invitation :
      String → String → String → ℕ → ℕ → Tables e → Result StoreError TeamInvitation × Tables e
  unfolding reissue_invitation_body
  reissue_invitation namespace_id id new_id now expires_at =
      transaction_value (reissue_invitation_body namespace_id id new_id now expires_at)

module _ {e : Engine} where
  -- `RevokeInvitation` once it changed no row, which is fine where the invitation exists, or some.
  unfoldable pub confirm_found : Bool → String → String → Tx (Tables e) (Unit {0})
  confirm_found true namespace_id id = do
    n ← select_count (team_invitations e) (is_invitation_of namespace_id id)
    raise_if (eqb n 0) not_found
  confirm_found false namespace_id id = pure tt

  -- The second statement is sent after the first one was committed.
  unfoldable pub after_revoking :
      String → String → Tables e → Result StoreError (ℕ × Tables e) → Check × Tables e
  after_revoking namespace_id id s (ok (n, t)) = close t (confirm_found (eqb n 0) namespace_id id t)
  after_revoking namespace_id id s (err x) = (some x, s)

  -- `RevokeInvitation`
  unfoldable pub revoke_invitation : String → String → ℕ → Tables e → Check × Tables e
  unfolding after_revoking
  revoke_invitation namespace_id id now s = after_revoking namespace_id id s (
      update (team_invitations e) (λ i. is_invitation_of namespace_id id i && is_unsettled i)
        (revoke_row now) s)
