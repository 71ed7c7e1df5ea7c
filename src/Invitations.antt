-- ===== src/Invitations.antt =====
-- packages/database/src/repositories/organizations.ts, the part on invitations, over the table of
-- schema/organizations.ts: to create, resend, revoke and accept one. Each runs in a transaction, so it
-- is one step on the tables. `digest` is `digestToken`, `to_lower_case` the case tables of Unicode.
pub mod Issue
pub mod Acceptance
pub mod Outcomes
pub mod Endings
pub mod Lifecycle
pub mod Writes
pub mod Replacement
pub mod Operations
pub mod Refinement
pub mod Slots
pub mod Invariant
pub mod Joining
pub mod History
pub mod Owners
pub mod Once
pub mod Tokens
pub mod Tests
use tabela_pubg.Prelude.{
  ℕ, ◌+◌, ◌*◌, String, Bool, true, false, not, ◌&&◌, ◌||◌, Option, none, some, List, [], ◌∷◌, ◌++◌,
  any, find, select, update, returning, first, ltb, ◌==◌, if◌then◌else◌, str_eq, is_none, is_some,
  is_text, codes, trim, Result, ok, err, ◌>>=◌,
}
use tabela_pubg.Identities.{VerifiedEmailRow, same_email}
use tabela_pubg.Organizations.{
  MembershipRow, Tables, AuditEventRow, is_member, is_active, may_manage,
}
use tabela_pubg.Outbox.{EventEnvelope}
use tabela_pubg.Members.{
  MutationMetadata, RolePayloadEntry, GivenRole, given, lock_organization, organization_role_text,
  audit_event, outbox_event, append_events, is_manager,
}
use tabela_pubg.Members.Roles.{validate_role_payload}

-- An email is its code points.
pub record InvitationRow : Type 0 where
  pub id : String
  pub organization_id : String
  pub invited_by_membership_id : String
  pub accepted_by_membership_id : Option String
  pub normalized_email : List ℕ
  pub token_digest : String
  pub organization_role : GivenRole
  pub role_payload : List RolePayloadEntry
  pub issued_at : ℕ
  pub expires_at : ℕ
  pub accepted_at : Option ℕ
  pub revoked_at : Option ℕ
  pub revocation_reason : Option String
  pub superseded_at : Option ℕ
  pub superseded_by_invitation_id : Option String
  pub created_at : ℕ
  pub updated_at : ℕ

-- The tables of an organization, with its invitations and the emails of the users.
pub record Directory : Type 0 where
  pub tables : Tables
  pub open tables use *
  pub invitations : List InvitationRow
  pub verified_emails : List VerifiedEmailRow

abbrev pub invitation_ttl_ms : ℕ
invitation_ttl_ms = 7 * 24 * 60 * 60000

unfoldable pub normalize_email : (List ℕ → List ℕ) → String → List ℕ
normalize_email to_lower_case email = to_lower_case (trim (codes email))

abbrev pub invitation_id : InvitationRow → String
invitation_id r = r.id

abbrev pub token_of : InvitationRow → String
token_of r = r.token_digest

unfoldable pub is_pending : InvitationRow → Bool
is_pending r = is_none r.accepted_at && is_none r.revoked_at && is_none r.superseded_at

-- The invitation of an organization with an id, while it is open.
unfoldable pub is_invitation : String → String → InvitationRow → Bool
unfolding is_pending
is_invitation organization_id id r =
    str_eq r.organization_id organization_id && str_eq r.id id && is_pending r

-- Two invitations of one organization to one email.
unfoldable pub same_slot : InvitationRow → InvitationRow → Bool
same_slot r s =
    str_eq r.organization_id s.organization_id && same_email r.normalized_email s.normalized_email

unfoldable pub collides : InvitationRow → InvitationRow → Bool
unfolding is_pending same_slot
collides r s =
    str_eq s.id r.id
    || str_eq s.token_digest r.token_digest
    || (is_pending r && is_pending s && same_slot r s)

unfoldable pub insert_invitation : List InvitationRow → InvitationRow → Result (List InvitationRow)
insert_invitation rows r =
    if any (collides r) rows
    then err "duplicate key value violates unique constraint"
    else ok (rows ++ r ∷ [])

pub record CreateInvitationInput : Type 0 where
  pub metadata : MutationMetadata
  pub open metadata use *
  pub id : String
  pub invited_by_membership_id : String
  pub email : String
  pub token : String
  pub organization_role : GivenRole
  pub role_payload : List RolePayloadEntry
  pub issued_at : ℕ

-- An active owner or admin of the organization.
unfoldable pub is_inviter : String → String → MembershipRow → Bool
unfolding is_member
is_inviter organization_id id m = is_member organization_id id m && may_manage m.role

pub record ResendInvitationInput : Type 0 where
  pub metadata : MutationMetadata
  pub open metadata use *
  pub id : String
  pub actor_membership_id : String
  pub token : String
  pub issued_at : ℕ

unfoldable pub is_resendable : String → String → ℕ → InvitationRow → Bool
unfolding is_invitation
is_resendable organization_id id now r = is_invitation organization_id id r && ltb now r.expires_at

unfoldable pub supersede : String → ℕ → InvitationRow → InvitationRow
supersede by_id now r = record r {
  superseded_at = some now;
  superseded_by_invitation_id = some by_id;
  updated_at = now;
}

unfoldable pub supersede_previous :
    List InvitationRow → String → String → String → ℕ → Result (List InvitationRow)
unfolding is_invitation supersede
supersede_previous rows organization_id previous_id by_id now =
    if is_none
      (first (returning (is_invitation organization_id previous_id) (supersede by_id now) rows))
    then err "invitation changed while locked; transaction must roll back"
    else ok (update (is_invitation organization_id previous_id) (supersede by_id now) rows)

-- The new invitation, as it waits for the previous one to end.
unfoldable pub is_replacement : String → String → InvitationRow → Bool
is_replacement organization_id id r =
    str_eq r.organization_id organization_id
    && str_eq r.id id
    && is_text r.revocation_reason "pending supersession"

unfoldable pub activate : ℕ → InvitationRow → InvitationRow
activate now r = record r { revoked_at = none; revocation_reason = none; updated_at = now }

-- The index on open invitations refuses to open a second one for an email.
unfoldable pub activate_replacement :
    List InvitationRow → String → String → ℕ → Result (List InvitationRow × Option InvitationRow)
unfolding is_replacement is_pending same_slot
activate_replacement rows organization_id id now =
    if any
      (λ r. is_replacement organization_id id r && any (λ s. is_pending s && same_slot r s) rows)
      rows
    then err "duplicate key value violates unique constraint"
    else ok (
      update (is_replacement organization_id id) (activate now) rows,
      first (returning (is_replacement organization_id id) (activate now) rows),
    )

pub record RevokeInvitationInput : Type 0 where
  pub metadata : MutationMetadata
  pub open metadata use *
  pub actor_membership_id : String

unfoldable pub revoke_invitation_row : MutationMetadata → InvitationRow → InvitationRow
revoke_invitation_row input r = record r {
  revoked_at = some input.occurred_at;
  revocation_reason = some input.reason;
  updated_at = input.occurred_at;
}

unfoldable pub find_invitation_by_token :
    (String → String) → List InvitationRow → String → Option InvitationRow
find_invitation_by_token digest rows token = find (λ r. str_eq r.token_digest (digest token)) rows
