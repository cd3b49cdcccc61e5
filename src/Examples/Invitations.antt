-- ===== src/Examples/Invitations.antt =====
-- The invitations of a small database: one was accepted, and one is open.
use marketplace_server.Examples.Engines.{list_engine, plain_platform, empty_tables}
use marketplace_server.Identity.InvitationRepository.{is_unsettled}
use marketplace_server.Identity.InvitationRows.{UniqueIds}
use marketplace_server.Identity.InvitationCommands.{
  InvitationCommand, run_invitation_commands, invitation_commands_settled, respond, revoke, reissue,
}
use mathlib.Core.List.{Mem, List}
use marketplace_server.Base.{String, arith, Option, [], eq_iff, false, some, ℕ, ◌∷◌, ◌≡◌, none}
use marketplace_server.Identity.Store.{Tables, view}
use marketplace_server.Identity.Model.{TeamInvitation}
use marketplace_server.Role.{viewer}

abbrev invitation : String → Option ℕ → TeamInvitation
invitation id accepted = record {
  id = id;
  namespace_id = "team";
  user_id = "bob";
  role = viewer;
  invited_by_user_id = "ann";
  expires_at = 90;
  accepted_at = accepted;
  rejected_at = none;
  revoked_at = none;
  created_at = 1;
  updated_at = 1;
}

abbrev invited : Tables list_engine
invited = record empty_tables {
  team_invitations = invitation "i1" (some 2) ∷ invitation "i2" none ∷ [];
}

unique_invited : UniqueIds invited.team_invitations
unique_invited id = ground (arith, eq_iff "i1" id, eq_iff "i2" id, eq_iff "i1" "i2")

abbrev answers : List InvitationCommand
answers = respond "i2" "bob" false 5 ∷ revoke "team" "i1" 6 ∷ reissue "team" "i1" "i3" 7 99 ∷ []

invitation_commands_settled_example :
    UniqueIds
      (view list_engine (run_invitation_commands plain_platform answers invited)).team_invitations
    × ((x : TeamInvitation)
        → is_unsettled x ≡ false
        → Mem x (view list_engine invited).team_invitations
        → Mem x
            (view list_engine
              (run_invitation_commands plain_platform answers invited)).team_invitations)
invitation_commands_settled_example =
    invitation_commands_settled plain_platform answers invited unique_invited
