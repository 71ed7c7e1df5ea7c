-- ===== src/Invitations/Issue.antt =====
-- packages/database/src/repositories/organizations.ts: createInvitation and resendInvitation.
use tabela_pubg.Prelude.{
  ℕ, ◌+◌, String, not, ◌||◌, Option, none, some, List, [], ◌∷◌, find, if◌then◌else◌, is_none,
  Result, ok, err, ◌>>=◌,
}
use tabela_pubg.Organizations.{MembershipRow, is_member}
use tabela_pubg.Members.{
  given, lock_organization, organization_role_text, audit_event, outbox_event, append_events,
  is_manager,
}
use tabela_pubg.Members.Roles.{validate_role_payload}
use tabela_pubg.Invitations.{
  InvitationRow, Directory, invitation_ttl_ms, normalize_email, insert_invitation,
  CreateInvitationInput, is_inviter, ResendInvitationInput, is_resendable, supersede_previous,
  activate_replacement,
}

unfoldable pub new_invitation :
    (String → String) → String → (List ℕ → List ℕ) → CreateInvitationInput → InvitationRow
unfolding normalize_email
new_invitation digest organization_id to_lower_case input = record {
  id = input.id;
  organization_id = organization_id;
  invited_by_membership_id = input.invited_by_membership_id;
  accepted_by_membership_id = none;
  normalized_email = normalize_email to_lower_case input.email;
  token_digest = digest input.token;
  organization_role = input.organization_role;
  role_payload = input.role_payload;
  issued_at = input.issued_at;
  expires_at = input.issued_at + invitation_ttl_ms;
  accepted_at = none;
  revoked_at = none;
  revocation_reason = none;
  superseded_at = none;
  superseded_by_invitation_id = none;
  created_at = input.issued_at;
  updated_at = input.issued_at;
}

-- The copy of an invitation that replaces it, held back until the previous one has ended.
unfoldable pub replacement :
    (String → String) → String → ResendInvitationInput → InvitationRow → InvitationRow
replacement digest organization_id input previous = record {
  id = input.id;
  organization_id = organization_id;
  invited_by_membership_id = input.actor_membership_id;
  accepted_by_membership_id = none;
  normalized_email = previous.normalized_email;
  token_digest = digest input.token;
  organization_role = previous.organization_role;
  role_payload = previous.role_payload;
  issued_at = input.issued_at;
  expires_at = input.issued_at + invitation_ttl_ms;
  accepted_at = none;
  revoked_at = some input.issued_at;
  revocation_reason = some "pending supersession";
  superseded_at = none;
  superseded_by_invitation_id = none;
  created_at = input.issued_at;
  updated_at = input.issued_at;
}

module _ (to_json : List (String × String) → String) (digest : String → String) (t : Directory)
    (available_at : ℕ) (organization_id : String) where
  unfoldable pub open_invitation : (List ℕ → List ℕ) → CreateInvitationInput → Result Directory
  unfolding new_invitation insert_invitation audit_event outbox_event append_events
  open_invitation to_lower_case input = do
    invitations ←
        insert_invitation t.invitations (new_invitation digest organization_id to_lower_case input)
    tables ←
        append_events available_at t.tables
          (record (audit_event input.metadata organization_id input.invited_by_membership_id
            "invitation.created" "invitation" input.id []
            (("invitationStatus", some "pending")
              ∷ ("organizationRole", some (organization_role_text (given input.organization_role)))
              ∷ [])) { before = none })
          (outbox_event input.metadata "invitation.created" "invitation" input.id
            (to_json (("organizationId", organization_id) ∷ ("invitationId", input.id) ∷ [])))
    ok (record t { tables = tables; invitations = invitations })

  unfoldable pub create_invitation : (List ℕ → List ℕ) → CreateInvitationInput → Result Directory
  unfolding is_inviter validate_role_payload open_invitation
  create_invitation to_lower_case input =
      if is_none (find (is_inviter organization_id input.invited_by_membership_id) t.memberships)
        || not (validate_role_payload t.tables organization_id [] input.role_payload)
      then err "invitation actor or role payload is outside the organization scope"
      else open_invitation to_lower_case input

  unfoldable pub reissued :
      String
      → ResendInvitationInput
      → List InvitationRow × Option InvitationRow
      → Result (Directory × Option InvitationRow)
  unfolding audit_event outbox_event append_events
  reissued previous_id input (rows, none) = err "replacement invitation was not activated"
  reissued previous_id input (rows, some activated) = do
    tables ←
        append_events available_at t.tables
          (audit_event input.metadata organization_id input.actor_membership_id "invitation.created"
            "invitation" input.id (("invitationStatus", some "superseded") ∷ [])
            (("invitationStatus", some "pending")
              ∷ (
                "organizationRole",
                some (organization_role_text (given activated.organization_role)),
              )
              ∷ []))
          (outbox_event input.metadata "invitation.reissued" "invitation" input.id (
            to_json (
              ("organizationId", organization_id)
              ∷ ("invitationId", input.id)
              ∷ ("previousInvitationId", previous_id)
              ∷ [])))
    ok (record t { tables = tables; invitations = rows }, some activated)

  unfoldable pub replace_invitation :
      String → ResendInvitationInput → InvitationRow → Result (Directory × Option InvitationRow)
  unfolding insert_invitation replacement supersede_previous activate_replacement reissued
  replace_invitation previous_id input previous = do
    inserted ← insert_invitation t.invitations (replacement digest organization_id input previous)
    superseded ← supersede_previous inserted organization_id previous_id input.id input.occurred_at
    activated ← activate_replacement superseded organization_id input.id input.occurred_at
    reissued previous_id input activated

  unfoldable pub resend_found :
      String
      → ResendInvitationInput
      → Option InvitationRow
      → Option MembershipRow
      → Result (Directory × Option InvitationRow)
  unfolding replace_invitation
  resend_found previous_id input none actor = ok (t, none)
  resend_found previous_id input (some previous) actor =
      if not (is_manager actor) then ok (t, none) else replace_invitation previous_id input previous

  -- `none` is the answer that the invitation is unavailable.
  unfoldable pub resend_invitation :
      String → ResendInvitationInput → Result (Directory × Option InvitationRow)
  unfolding lock_organization is_resendable is_member resend_found
  resend_invitation previous_id input =
      if not (lock_organization t.tables organization_id)
      then ok (t, none)
      else resend_found previous_id input
          (find (is_resendable organization_id previous_id input.occurred_at) t.invitations)
          (find (is_member organization_id input.actor_membership_id) t.memberships)
