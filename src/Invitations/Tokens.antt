-- ===== src/Invitations/Tokens.antt =====
-- A token leads back to the invitation that was made with it.
use tabela_pubg.Prelude.{
  ℕ, ◌≡◌, ap, ◌∙◌, refl, ◌+◌, none, trim, codes, String, some, List, find, arith, ok, str_eq,
  eq_refl, any-false, find-append_one,
}
use tabela_pubg.Invitations.{
  InvitationRow, Directory, collides, CreateInvitationInput, normalize_email,
  find_invitation_by_token,
}
use tabela_pubg.Invitations.Issue.{new_invitation, create_invitation}
use tabela_pubg.Invitations.Outcomes.{create_inv}
use tabela_pubg.Invitations.Writes.{insert_invitation_lem}

-- An open invitation of the organization as it was asked for, which lasts 7 * 24 * 3600 seconds.
pub record IsIssued (digest : String → String) (organization_id : String)
    (to_lower_case : List ℕ → List ℕ) (input : CreateInvitationInput) (r : InvitationRow)
    : Type 0 where
  pub id : r.id ≡ input.id
  pub in_organization : r.organization_id ≡ organization_id
  pub inviter : r.invited_by_membership_id ≡ input.invited_by_membership_id
  pub addressed : r.normalized_email ≡ to_lower_case (trim (codes input.email))
  pub of_token : r.token_digest ≡ digest input.token
  pub organization_role : r.organization_role ≡ input.organization_role
  pub role_payload : r.role_payload ≡ input.role_payload
  pub issued : r.issued_at ≡ input.issued_at
  pub expires : r.expires_at ≡ input.issued_at + 604800000
  pub not_accepted : r.accepted_at ≡ none
  pub not_revoked : r.revoked_at ≡ none
  pub not_superseded : r.superseded_at ≡ none

new_invitation-IsIssued :
    (digest : String → String) (organization_id : String) (to_lower_case : List ℕ → List ℕ)
    (input : CreateInvitationInput)
    → IsIssued digest organization_id to_lower_case input
        (new_invitation digest organization_id to_lower_case input)
unfolding new_invitation normalize_email
new_invitation-IsIssued digest organization_id to_lower_case input = record {
  id = refl;
  in_organization = refl;
  inviter = refl;
  addressed = refl;
  of_token = refl;
  organization_role = refl;
  role_payload = refl;
  issued = refl;
  expires = refl;
  not_accepted = refl;
  not_revoked = refl;
  not_superseded = refl;
}

-- After an invitation has been created, its token finds an invitation with the id, the organization
-- and the inviter of the request, to the email trimmed and in lower case, with the organization role
-- and the operational roles that were asked for, which runs out 604,800,000 milliseconds (seven days)
-- after the time of its issue and is neither accepted, revoked nor superseded.
pub find_invitation_by_token-create_invitation :
    (to_json : List (String × String) → String) (digest : String → String) (t t' : Directory)
    (now : ℕ) (organization_id : String) (to_lower_case : List ℕ → List ℕ)
    (input : CreateInvitationInput)
    → create_invitation to_json digest t now organization_id to_lower_case input ≡ ok t'
    → (r : InvitationRow) × (find_invitation_by_token digest t'.invitations input.token ≡ some r)
      × IsIssued digest organization_id to_lower_case input r
unfolding find_invitation_by_token new_invitation collides
find_invitation_by_token-create_invitation to_json digest t t' now organization_id to_lower_case
      input e =
    let (_, rows, _, _, fresh, _, _, changed) =
      create_inv to_json digest t t' now organization_id to_lower_case input e in
    let r = new_invitation digest organization_id to_lower_case input in
    let (appended, free, _) = insert_invitation_lem t.invitations rows r fresh in
    let p = λ (s : InvitationRow). str_eq s.token_digest (digest input.token) in
    (
      r,
      ap (find p) (changed.written ∙ appended)
          ∙ find-append_one p t.invitations r
              (any-false p (collides r) t.invitations (λ s h. ground (arith, h)) free)
              (eq_refl (digest input.token)),
      new_invitation-IsIssued digest organization_id to_lower_case input,
    )
