-- ===== src/Invitations/Joining.antt =====
-- What an acceptance has checked and what it leaves: who joins an organization, and as what.
use mathlib.Core.List.{Memᴰ}
use tabela_pubg.Prelude.{
  ℕ, ◌<◌, ◌≡◌, ◌≢◌, refl, sym, ap, ◌∙◌, ◌⊎◌, inl, inr, String, Bool, true, false, ◌||◌, Option,
  none, some, List, [], ◌∷◌, ◌++◌, find, find_by, any, arith, ok, Bool-cases, str_eq, eq_iff,
  eq_refl, HasDistinctKeys, Memᴰ-find, find-true, touch?, find_by-update,
}
use mathlib.Core.List.{append-nil, append_assoc}
use tabela_pubg.Members.Roles.{clashes, insert_assignments}
use tabela_pubg.Organizations.{MembershipRow, RoleAssignmentRow, active}
use tabela_pubg.Members.{given}
use tabela_pubg.Members.Operations.{Recorded}
use tabela_pubg.Identities.{VerifiedEmailRow}
use tabela_pubg.Invitations.{InvitationRow, Directory, invitation_id, is_pending, is_invitation}
use tabela_pubg.Invitations.Acceptance.{
  AcceptInvitationInput, is_acceptable, is_email_of, is_membership_of, insert_membership, consume,
  new_membership, accepted_assignments, accept_invitation,
}
use tabela_pubg.Invitations.Endings.{accept_inv}
use tabela_pubg.Invitations.Writes.{find_by-find}
use tabela_pubg.Invitations.Slots.{eq_of_same_email}

pub insert_membership_lem :
    (rows rows' : List MembershipRow) (m : MembershipRow)
    → insert_membership rows m ≡ ok rows'
    → (rows' ≡ rows ++ m ∷ [])
      × (any (λ r. str_eq r.id m.id || is_membership_of m.organization_id m.user_id r) rows ≡ false)
unfolding insert_membership
insert_membership_lem rows rows' m e =
    elim (Bool-cases
      (any (λ r. str_eq r.id m.id || is_membership_of m.organization_id m.user_id r) rows)) [
        | inl y ↦ absurd (cc (rw y at e))
        | inr n ↦ (cc (rw n at e), n)
      ]

insert_assignments-append :
    (rows more rows' : List RoleAssignmentRow)
    → insert_assignments rows more ≡ ok rows'
    → rows' ≡ rows ++ more
unfolding insert_assignments
insert_assignments-append rows [] rows' e =
    let same : rows ≡ rows' = cc in sym same ∙ sym (append-nil rows)
insert_assignments-append rows (r ∷ more) rows' e = elim (Bool-cases (any (clashes r) rows)) [
  | inl y ↦ absurd (cc (rw y at e))
  | inr n ↦
      insert_assignments-append (rows ++ r ∷ []) more rows' (rw n at e)
      ∙ append_assoc rows (r ∷ []) more
]

find-none :
    (p : MembershipRow → Bool) (rows : List MembershipRow)
    → find p rows ≡ none
    → (r : MembershipRow) → Memᴰ r rows
    → p r ≡ false
find-none p [] e r m = elim m [ ]
find-none p (s ∷ rows) e r (Memᴰ.head same) = rw same (ground arith)
find-none p (s ∷ rows) e r (Memᴰ.tail m) = find-none p rows (ground arith) r m

module _ (t t' : Directory) (organization_id token_digest user_id : String)
    (input : AcceptInvitationInput) where
  -- The invitation that the token names was open, had not run out and was sent to the verified email
  -- of a user who was no member; the user is one now, in the role of the invitation.
  pub record HasJoined : Type 0 where
    pub invitation : InvitationRow
    pub listed : find_by invitation_id invitation.id t.invitations ≡ some invitation
    pub of_organization : invitation.organization_id ≡ organization_id
    pub of_token : invitation.token_digest ≡ token_digest
    pub was_open : is_pending invitation ≡ true
    pub in_time : input.occurred_at < invitation.expires_at
    pub email : VerifiedEmailRow
    pub verified : Memᴰ email t.verified_emails
    pub owned : email.user_id ≡ user_id
    pub current : email.revoked_at ≡ none
    pub addressed : email.normalized_email ≡ invitation.normalized_email
    pub stranger :
        (m : MembershipRow)
        → Memᴰ m t.memberships
        → m.organization_id ≡ organization_id
        → m.user_id ≢ user_id
    pub membership : MembershipRow
    pub joined : t'.memberships ≡ t.memberships ++ membership ∷ []
    pub of_user : membership.user_id ≡ user_id
    pub in_organization : membership.organization_id ≡ organization_id
    pub in_role : membership.role ≡ given invitation.organization_role
    pub is_current : membership.status ≡ active
    pub assigned :
        t'.assignments
        ≡ t.assignments
          ++ accepted_assignments organization_id input invitation input.assignment_ids
              invitation.role_payload
    pub used :
        find_by invitation_id invitation.id t'.invitations
        ≡ some (consume membership.id input.occurred_at invitation)
    pub used_at :
        (consume membership.id input.occurred_at invitation).accepted_at ≡ some input.occurred_at
    pub used_by :
        (consume membership.id input.occurred_at invitation).accepted_by_membership_id
        ≡ some membership.id
    pub recorded : Recorded t.tables t'.tables organization_id membership.id input.metadata

-- An acceptance either answers that the invitation is unavailable and leaves all tables as they are,
-- or answers with the new membership of a user who has joined by an open invitation of the
-- organization with the token, before it ran out, to an email that the user has verified. The user
-- was no member before, in whatever state; the member has the role of the invitation, which is used
-- up; both logs record it. The ids of the invitations are distinct.
pub accept_invitation-HasJoined :
    (to_json : List (String × String) → String) (t t' : Directory) (now : ℕ)
    (organization_id : String) (digest : String → String) (token user_id : String)
    (input : AcceptInvitationInput) (answer : Option String)
    → HasDistinctKeys invitation_id t.invitations
    → accept_invitation to_json t now organization_id digest token user_id input ≡ ok (t', answer)
    → ((t' ≡ t) × (answer ≡ none))
      ⊎ ((answer ≡ some input.membership_id)
          × HasJoined t t' organization_id (digest token) user_id input)
unfolding is_acceptable new_membership is_invitation is_pending consume
accept_invitation-HasJoined to_json t t' now organization_id digest token user_id input answer
      distinct e =
    elim (accept_inv to_json t t' now organization_id digest token user_id input answer e) [
      | inl refused ↦ inl refused
      | inr (said, (invitation, email, found, known, same, new, (members, roles, changed))) ↦
          let fits = find-true _ t.invitations invitation found in
          let mine = find-true (is_email_of user_id) t.verified_emails email known in
          let there = find_by-find _ t.invitations invitation distinct found in
          inr (
            said,
            record {
              invitation = invitation;
              listed = there;
              of_organization =
                  ground (arith, fits, eq_iff invitation.organization_id organization_id);
              of_token = ground (arith, fits, eq_iff invitation.token_digest (digest token));
              was_open = ground (arith, fits);
              in_time = ground (arith, fits);
              email = email;
              verified = Memᴰ-find (is_email_of user_id) t.verified_emails email known;
              owned = ground (arith, mine, eq_iff email.user_id user_id);
              current = ground (arith, mine);
              addressed = eq_of_same_email email.normalized_email invitation.normalized_email same;
              stranger = λ m there_ in_ of_. ground (
                arith,
                find-none _ t.memberships new m there_,
                eq_iff m.organization_id organization_id,
                eq_iff m.user_id user_id,
                in_,
                of_,
              );
              membership = new_membership organization_id user_id input invitation;
              joined = (insert_membership_lem t.memberships t'.memberships _ members).0;
              of_user = refl;
              in_organization = refl;
              in_role = refl;
              is_current = refl;
              assigned = insert_assignments-append _ _ _ roles;
              used =
                  ap (find_by invitation_id invitation.id) changed.written
                  ∙ find_by-update invitation_id (is_invitation organization_id invitation.id)
                      (consume input.membership_id input.occurred_at) (λ r. refl) invitation.id
                      t.invitations
                  ∙ ap
                      (touch? (is_invitation organization_id invitation.id)
                        (consume input.membership_id input.occurred_at))
                      there
                  ∙ ground (arith, fits, eq_refl invitation.id);
              used_at = refl;
              used_by = refl;
              recorded = changed.recorded;
            },
          )
    ]
