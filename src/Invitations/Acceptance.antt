-- ===== src/Invitations/Acceptance.antt =====
-- packages/database/src/repositories/organizations.ts: revokeInvitation and acceptInvitation.
use tabela_pubg.Prelude.{
  ℕ, String, Bool, true, false, not, ◌&&◌, ◌||◌, Option, none, some, List, [], ◌∷◌, ◌++◌, any, find,
  update, returning, first, length, ltb, ◌==◌, if◌then◌else◌, str_eq, is_none, is_some, Result, ok,
  err, ◌>>=◌,
}
use tabela_pubg.Organizations.{MembershipRow, active, RoleAssignmentRow}
use tabela_pubg.Members.{
  MutationMetadata, RolePayloadEntry, given, lock_organization, organization_role_text, audit_event,
  outbox_event, append_events,
}
use tabela_pubg.Members.Roles.{validate_role_payload, insert_assignments}
use tabela_pubg.Identities.{VerifiedEmailRow, same_email}
use tabela_pubg.Invitations.{
  InvitationRow, Directory, is_pending, is_invitation, RevokeInvitationInput, revoke_invitation_row,
}

pub record AcceptInvitationInput : Type 0 where
  pub metadata : MutationMetadata
  pub open metadata use *
  pub membership_id : String
  pub assignment_ids : List String

-- The open invitation of an organization with a token, before it expires.
unfoldable pub is_acceptable : String → String → ℕ → InvitationRow → Bool
unfolding is_pending
is_acceptable organization_id token_digest now r =
    str_eq r.organization_id organization_id
    && str_eq r.token_digest token_digest
    && is_pending r
    && ltb now r.expires_at

abbrev pub is_email_of : String → VerifiedEmailRow → Bool
is_email_of user_id e = str_eq e.user_id user_id && is_none e.revoked_at

abbrev pub is_membership_of : String → String → MembershipRow → Bool
is_membership_of organization_id user_id m =
    str_eq m.organization_id organization_id && str_eq m.user_id user_id

-- The ids are unique, and so is the membership of a user in an organization.
unfoldable pub insert_membership : List MembershipRow → MembershipRow → Result (List MembershipRow)
insert_membership rows m =
    if any (λ r. str_eq r.id m.id || is_membership_of m.organization_id m.user_id r) rows
    then err "duplicate key value violates unique constraint"
    else ok (rows ++ m ∷ [])

unfoldable pub consume : String → ℕ → InvitationRow → InvitationRow
consume membership_id now r = record r {
  accepted_by_membership_id = some membership_id;
  accepted_at = some now;
  updated_at = now;
}

unfoldable pub new_membership :
    String → String → AcceptInvitationInput → InvitationRow → MembershipRow
new_membership organization_id user_id input invitation = record {
  id = input.membership_id;
  organization_id = organization_id;
  user_id = user_id;
  role = given invitation.organization_role;
  status = active;
  joined_at = input.occurred_at;
  revoked_at = none;
  revocation_reason = none;
  updated_at = input.occurred_at;
}

unfoldable pub accepted_assignments :
    String
    → AcceptInvitationInput
    → InvitationRow
    → List String
    → List RolePayloadEntry
    → List RoleAssignmentRow
accepted_assignments organization_id input invitation (id ∷ ids) (e ∷ es) =
    record {
      id = id;
      organization_id = organization_id;
      membership_id = input.membership_id;
      authorization_scope_id = e.authorization_scope_id;
      role = e.role;
      status = active;
      assigned_by_membership_id = invitation.invited_by_membership_id;
      assignment_reason = input.reason;
      assigned_at = input.occurred_at;
      revoked_at = none;
      revocation_reason = none;
    }
    ∷ accepted_assignments organization_id input invitation ids es
accepted_assignments organization_id input invitation _ _ = []

module _ (to_json : List (String × String) → String) (t : Directory) (available_at : ℕ)
    (organization_id : String) where
  unfoldable pub revoke_found :
      String → RevokeInvitationInput → Option InvitationRow → Result (Directory × Bool)
  unfolding is_invitation revoke_invitation_row audit_event outbox_event append_events
  revoke_found id input none = ok (t, false)
  revoke_found id input (some revoked) = do
    tables ←
        append_events available_at t.tables
          (audit_event input.metadata organization_id input.actor_membership_id "invitation.revoked"
            "invitation" id (("invitationStatus", some "pending") ∷ [])
            (("invitationStatus", some "revoked") ∷ []))
          (outbox_event input.metadata "invitation.revoked" "invitation" id
            (to_json (("organizationId", organization_id) ∷ ("invitationId", id) ∷ [])))
    ok (
      record t {
        tables = tables;
        invitations =
            update (is_invitation organization_id id) (revoke_invitation_row input.metadata)
              t.invitations;
      },
      true,
    )

  unfoldable pub revoke_invitation : String → RevokeInvitationInput → Result (Directory × Bool)
  unfolding lock_organization revoke_found
  revoke_invitation id input =
      if not (lock_organization t.tables organization_id)
      then ok (t, false)
      else revoke_found id input (
          first (
            returning (is_invitation organization_id id) (revoke_invitation_row input.metadata)
              t.invitations))

  unfoldable pub consumed :
      AcceptInvitationInput
      → InvitationRow
      → List MembershipRow
      → List RoleAssignmentRow
      → Option InvitationRow
      → Result (Directory × Option String)
  unfolding is_invitation consume audit_event outbox_event append_events
  consumed input invitation memberships assignments none =
      err "invitation changed while locked; transaction must roll back"
  consumed input invitation memberships assignments (some row) = do
    tables ←
        append_events available_at
          (record t.tables { memberships = memberships; assignments = assignments })
          (audit_event input.metadata organization_id input.membership_id "invitation.accepted"
            "invitation" invitation.id (("invitationStatus", some "pending") ∷ [])
            (("invitationStatus", some "accepted")
              ∷ (
                "organizationRole",
                some (organization_role_text (given invitation.organization_role)),
              )
              ∷ []))
          (outbox_event input.metadata "invitation.accepted" "invitation" invitation.id (
            to_json (
              ("organizationId", organization_id)
              ∷ ("invitationId", invitation.id)
              ∷ ("membershipId", input.membership_id)
              ∷ [])))
    ok (
      record t {
        tables = tables;
        invitations =
            update (is_invitation organization_id invitation.id)
              (consume input.membership_id input.occurred_at) t.invitations;
      },
      some input.membership_id,
    )

  unfoldable pub join_organization :
      String → AcceptInvitationInput → InvitationRow → Result (Directory × Option String)
  unfolding new_membership accepted_assignments insert_membership insert_assignments is_invitation
      consume consumed
  join_organization user_id input invitation = do
    memberships ←
        insert_membership t.memberships (new_membership organization_id user_id input invitation)
    assignments ← insert_assignments t.assignments (
        accepted_assignments organization_id input invitation input.assignment_ids
          invitation.role_payload)
    consumed input invitation memberships assignments (
        first (
          returning (is_invitation organization_id invitation.id)
            (consume input.membership_id input.occurred_at) t.invitations))

  unfoldable pub accept_found :
      String
      → AcceptInvitationInput
      → Option InvitationRow
      → Option VerifiedEmailRow
      → Result (Directory × Option String)
  unfolding validate_role_payload join_organization
  accept_found user_id input none email = ok (t, none)
  accept_found user_id input (some invitation) none = ok (t, none)
  accept_found user_id input (some invitation) (some email) =
      if not (same_email email.normalized_email invitation.normalized_email)
        || is_some (find (is_membership_of organization_id user_id) t.memberships)
        || not (length input.assignment_ids == length invitation.role_payload)
        || not (validate_role_payload t.tables organization_id [] invitation.role_payload)
      then ok (t, none)
      else join_organization user_id input invitation

  -- `none` is the answer that the invitation is unavailable.
  unfoldable pub accept_invitation :
      (String → String)
      → String
      → String
      → AcceptInvitationInput
      → Result (Directory × Option String)
  unfolding lock_organization is_acceptable accept_found
  accept_invitation digest token user_id input =
      if not (lock_organization t.tables organization_id)
      then ok (t, none)
      else accept_found user_id input
          (find (is_acceptable organization_id (digest token) input.occurred_at) t.invitations)
          (find (is_email_of user_id) t.verified_emails)
