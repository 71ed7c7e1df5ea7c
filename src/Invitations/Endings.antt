-- ===== src/Invitations/Endings.antt =====
-- What an operation on invitations that returns has found and done: revocation and acceptance.
use tabela_pubg.Prelude.{
  bound, ℕ, ◌≡◌, refl, sym, ◌⊎◌, inl, inr, String, Bool, true, false, not, ◌||◌, Option, none, some,
  List, [], update, find, returning, first, length, ◌==◌, ok, if◌then◌else◌, Bool-cases, is_some,
}
use tabela_pubg.Organizations.{MembershipRow, RoleAssignmentRow}
use tabela_pubg.Members.{lock_organization, audit_event, outbox_event}
use tabela_pubg.Members.Roles.{validate_role_payload, insert_assignments}
use tabela_pubg.Identities.{VerifiedEmailRow, same_email}
use tabela_pubg.Invitations.{
  InvitationRow, Directory, is_invitation, RevokeInvitationInput, revoke_invitation_row,
}
use tabela_pubg.Invitations.Acceptance.{
  AcceptInvitationInput, is_acceptable, is_email_of, is_membership_of, insert_membership, consume,
  revoke_found, revoke_invitation, new_membership, accepted_assignments, consumed,
  join_organization, accept_found, accept_invitation,
}
use tabela_pubg.Invitations.Outcomes.{Changed, ended}

module _ (to_json : List (String × String) → String) (t t' : Directory) (now : ℕ)
    (organization_id : String) where
  abbrev pub Revoked : String → RevokeInvitationInput → InvitationRow → Type 0
  Revoked id input row =
      (first (
          returning (is_invitation organization_id id) (revoke_invitation_row input.metadata)
            t.invitations)
        ≡ some row)
      × (t'.memberships ≡ t.memberships)
      × (t'.assignments ≡ t.assignments)
      × Changed t t'
          (update (is_invitation organization_id id) (revoke_invitation_row input.metadata)
            t.invitations)
          organization_id input.actor_membership_id input.metadata

  pub revoke_inv :
      (id : String) (input : RevokeInvitationInput) (answer : Bool)
      → revoke_invitation to_json t now organization_id id input ≡ ok (t', answer)
      → ((t' ≡ t) × (answer ≡ false))
        ⊎ ((row : InvitationRow) × (answer ≡ true) × Revoked id input row)
  unfolding revoke_invitation revoke_found audit_event outbox_event
  revoke_inv id input answer e = elim (Bool-cases (lock_organization t.tables organization_id)) [
    | inr n ↦ inl (cc (rw n at e), cc (rw n at e))
    | inl y ↦ found _ refl (rw y at e)
  ]
    where
      found :
          (row : Option InvitationRow)
          → first (
              returning
                (is_invitation organization_id id)
                (revoke_invitation_row input.metadata)
                t.invitations)
            ≡ row
          → revoke_found to_json t now organization_id id input row ≡ ok (t', answer)
          → ((t' ≡ t) × (answer ≡ false))
            ⊎ ((row : InvitationRow) × (answer ≡ true) × Revoked id input row)
      found none k h = inl (cc, cc)
      found (some row) k h =
          let finish : Directory → Directory × Bool = λ d. (d, true) in
          let (u, same, members, roles, changed) =
            ended finish (t', answer) now t t.tables _ _ _ input.metadata h refl refl refl refl in
          let same' : u ≡ t' = cc in
          inr (row, cc, (k, rw (sym same') members, rw (sym same') roles, rw (sym same') changed))

  abbrev pub Joined : String → AcceptInvitationInput → InvitationRow → Type 0
  Joined user_id input invitation =
      (insert_membership t.memberships (new_membership organization_id user_id input invitation)
        ≡ ok t'.memberships)
      × (insert_assignments t.assignments (
            accepted_assignments organization_id input invitation input.assignment_ids
              invitation.role_payload)
          ≡ ok t'.assignments)
      × Changed t t'
          (update (is_invitation organization_id invitation.id)
            (consume input.membership_id input.occurred_at) t.invitations)
          organization_id input.membership_id input.metadata

  joined_lem :
      (user_id : String) (input : AcceptInvitationInput) (invitation : InvitationRow)
      (answer : Option String)
      → join_organization to_json t now organization_id user_id input invitation ≡ ok (t', answer)
      → (answer ≡ some input.membership_id) × Joined user_id input invitation
  unfolding join_organization consumed audit_event outbox_event
  joined_lem user_id input invitation answer e =
      let (memberships, k, e1) = bound (insert_membership t.memberships _) _ (t', answer) e in
      let (assignments, l, e2) = bound (insert_assignments t.assignments _) _ (t', answer) e1 in
      taken memberships assignments _ k l e2
    where
      taken :
          (memberships : List MembershipRow) (assignments : List RoleAssignmentRow)
          (row : Option InvitationRow)
          → insert_membership t.memberships
              (new_membership organization_id user_id input invitation)
            ≡ ok memberships
          → insert_assignments t.assignments (
              accepted_assignments organization_id input invitation input.assignment_ids
                invitation.role_payload)
            ≡ ok assignments
          → consumed to_json t now organization_id input invitation memberships assignments row
            ≡ ok (t', answer)
          → (answer ≡ some input.membership_id) × Joined user_id input invitation
      taken memberships assignments none k l h = absurd (cc)
      taken memberships assignments (some row) k l h =
          let finish : Directory → Directory × Option String = λ d. (d, some input.membership_id) in
          let (u, same, members, roles, changed) =
            ended finish (t', answer) now t
              (record t.tables { memberships = memberships; assignments = assignments }) _ _ _
              input.metadata h refl refl refl refl in
          let same' : u ≡ t' = cc in
          (cc, (rw (sym same') (cc), rw (sym same') (cc), rw (sym same') changed))

  abbrev pub Welcomed : (String → String) → String → String → AcceptInvitationInput → Type 0
  Welcomed digest token user_id input =
      (invitation : InvitationRow) × (email : VerifiedEmailRow) × (find
          (is_acceptable organization_id (digest token) input.occurred_at) t.invitations
        ≡ some invitation)
      × (find (is_email_of user_id) t.verified_emails ≡ some email)
      × (same_email email.normalized_email invitation.normalized_email ≡ true)
      × (find (is_membership_of organization_id user_id) t.memberships ≡ none)
      × Joined user_id input invitation

  pub accept_inv :
      (digest : String → String) (token user_id : String) (input : AcceptInvitationInput)
      (answer : Option String)
      → accept_invitation to_json t now organization_id digest token user_id input ≡ ok (t', answer)
      → ((t' ≡ t) × (answer ≡ none))
        ⊎ ((answer ≡ some input.membership_id) × Welcomed digest token user_id input)
  unfolding accept_invitation accept_found
  accept_inv digest token user_id input answer e =
      elim (Bool-cases (lock_organization t.tables organization_id)) [
        | inr n ↦ inl (cc (rw n at e), cc (rw n at e))
        | inl y ↦ found _ _ refl refl (rw y at e)
      ]
    where
      found :
          (invitation : Option InvitationRow) (email : Option VerifiedEmailRow)
          → find (is_acceptable organization_id (digest token) input.occurred_at) t.invitations
            ≡ invitation
          → find (is_email_of user_id) t.verified_emails ≡ email
          → accept_found to_json t now organization_id user_id input invitation email
            ≡ ok (t', answer)
          → ((t' ≡ t) × (answer ≡ none))
            ⊎ ((answer ≡ some input.membership_id) × Welcomed digest token user_id input)
      found none email k l h = inl (cc, cc)
      found (some invitation) none k l h = inl (cc, cc)
      found (some invitation) (some email) k l h = decide _ _ refl refl h
        where
          decide :
              (same : Bool) (member : Option MembershipRow)
              → same_email email.normalized_email invitation.normalized_email ≡ same
              → find (is_membership_of organization_id user_id) t.memberships ≡ member
              → (if not same
                    || is_some member
                    || not (length input.assignment_ids == length invitation.role_payload)
                    || not
                        (validate_role_payload t.tables organization_id [] invitation.role_payload)
                  then ok (t, none)
                  else join_organization to_json t now organization_id user_id input invitation)
                ≡ ok (t', answer)
              → ((t' ≡ t) × (answer ≡ none))
                ⊎ ((answer ≡ some input.membership_id) × Welcomed digest token user_id input)
          decide false member m n c = inl (cc, cc)
          decide true (some member) m n c = inl (cc, cc)
          decide true none m n c = ends _ refl c
            where
              ends :
                  (refused : Bool)
                  → (not (length input.assignment_ids == length invitation.role_payload)
                      || not (
                          validate_role_payload t.tables organization_id []
                            invitation.role_payload))
                    ≡ refused
                  → (if refused
                      then ok (t, none)
                      else join_organization to_json t now organization_id user_id input invitation)
                    ≡ ok (t', answer)
                  → ((t' ≡ t) × (answer ≡ none))
                    ⊎ ((answer ≡ some input.membership_id) × Welcomed digest token user_id input)
              ends true x d = inl (cc, cc)
              ends false x d =
                  let (same, joined) = joined_lem user_id input invitation answer d in
                  inr (same, (invitation, email, k, l, m, n, joined))
