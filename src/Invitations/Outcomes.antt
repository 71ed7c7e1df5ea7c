-- ===== src/Invitations/Outcomes.antt =====
-- What an operation on invitations that returns has found and done: creation and resending.
use tabela_pubg.Prelude.{
  bound, ℕ, ◌≡◌, refl, sym, ◌⊎◌, inl, inr, String, Bool, true, false, not, ◌||◌, Option, none, some,
  List, [], find, ok, err, if◌then◌else◌, Bool-cases, is_none, ◌>>=◌,
}
use mathlib.Core.Path.{subst}
use tabela_pubg.Organizations.{MembershipRow, Tables, is_member, may_manage, AuditEventRow}
use tabela_pubg.Outbox.{EventEnvelope}
use tabela_pubg.Members.{
  MutationMetadata, lock_organization, append_events, audit_event, outbox_event,
}
use tabela_pubg.Members.Roles.{validate_role_payload}
use tabela_pubg.Members.Operations.{Recorded, append_events_lem}
use tabela_pubg.Members.Outcomes.{append_events-Recorded}
use tabela_pubg.Invitations.{
  InvitationRow, Directory, is_inviter, CreateInvitationInput, insert_invitation,
  ResendInvitationInput, is_resendable, supersede_previous, activate_replacement,
}
use tabela_pubg.Invitations.Issue.{
  new_invitation, open_invitation, create_invitation, replacement, reissued, replace_invitation,
  resend_found, resend_invitation,
}

-- A change of the invitations, with the tables that stay and its record in the logs.
pub record Changed (t t' : Directory) (rows : List InvitationRow) (organization_id actor : String)
    (input : MutationMetadata) : Type 0 where
  pub written : t'.invitations ≡ rows
  pub emails : t'.verified_emails ≡ t.verified_emails
  pub recorded : Recorded t.tables t'.tables organization_id actor input

-- The end of each operation: the logs are written, and the rows.
pub ended :
    {B : Type 0} (finish : Directory → B) (b : B) (now : ℕ) (t : Directory) (changed : Tables)
    (rows : List InvitationRow) (audit : AuditEventRow) (event : EventEnvelope)
    (input : MutationMetadata)
    → ◌>>=◌ {B = B}
        (append_events now changed audit event)
        (λ tables. ok (finish (record t { tables = tables; invitations = rows })))
      ≡ ok b
    → changed.audit_events ≡ t.audit_events
    → changed.outbox_events ≡ t.outbox_events
    → audit.id ≡ input.audit_event_id
    → event.id ≡ input.outbox_event_id
    → (t' : Directory) × (finish t' ≡ b)
      × (t'.memberships ≡ changed.memberships)
      × (t'.assignments ≡ changed.assignments)
      × Changed t t' rows audit.organization_id audit.actor_membership_id input
ended finish b now t changed rows audit event input e x y i j =
    let (u, k, l) = bound (append_events now changed audit event) _ b e in
    let done = append_events_lem now changed u audit event k in
    (
      record t { tables = u; invitations = rows },
      cc,
      done.0,
      done.1,
      record {
        written = refl;
        emails = refl;
        recorded = append_events-Recorded now t.tables changed u audit event input k x y i j;
      },
    )

module _ (to_json : List (String × String) → String) (digest : String → String) (t t' : Directory)
    (now : ℕ) (organization_id : String) where
  abbrev pub Created : (List ℕ → List ℕ) → CreateInvitationInput → Type 0
  Created to_lower_case input =
      (inviter : MembershipRow) × (rows : List InvitationRow) × (find
          (is_inviter organization_id input.invited_by_membership_id) t.memberships
        ≡ some inviter)
      × (validate_role_payload t.tables organization_id [] input.role_payload ≡ true)
      × (insert_invitation t.invitations (new_invitation digest organization_id to_lower_case input)
          ≡ ok rows)
      × (t'.memberships ≡ t.memberships)
      × (t'.assignments ≡ t.assignments)
      × Changed t t' rows organization_id input.invited_by_membership_id input.metadata

  pub create_inv :
      (to_lower_case : List ℕ → List ℕ) (input : CreateInvitationInput)
      → create_invitation to_json digest t now organization_id to_lower_case input ≡ ok t'
      → Created to_lower_case input
  unfolding create_invitation open_invitation audit_event outbox_event
  create_inv to_lower_case input e = found _ _ refl refl e
    where
      found :
          (inviter : Option MembershipRow) (valid : Bool)
          → find (is_inviter organization_id input.invited_by_membership_id) t.memberships ≡ inviter
          → validate_role_payload t.tables organization_id [] input.role_payload ≡ valid
          → (if is_none inviter || not valid
              then err "invitation actor or role payload is outside the organization scope"
              else open_invitation to_json digest t now organization_id to_lower_case input)
            ≡ ok t'
          → Created to_lower_case input
      found none valid k l h = absurd (cc)
      found (some inviter) false k l h = absurd (cc)
      found (some inviter) true k l h =
          let (rows, fresh, h') = bound (insert_invitation t.invitations _) _ t' h in
          let (u, same, members, roles, changed) =
            ended (λ d. d) t' now t t.tables rows _ _ input.metadata h' refl refl refl refl in
          (
            inviter,
            rows,
            k,
            l,
            fresh,
            rw (sym same) members,
            rw (sym same) roles,
            subst
                (λ d.
                  Changed t d rows organization_id input.invited_by_membership_id input.metadata)
                same changed,
          )

  -- The three writes of a resend, in their order.
  abbrev pub Replaced : String → ResendInvitationInput → InvitationRow → InvitationRow → Type 0
  Replaced previous_id input previous activated =
      (inserted : List InvitationRow) × (superseded : List InvitationRow) × (rows : List
        InvitationRow)
      × (insert_invitation t.invitations (replacement digest organization_id input previous)
          ≡ ok inserted)
      × (supersede_previous inserted organization_id previous_id input.id input.occurred_at
          ≡ ok superseded)
      × (activate_replacement superseded organization_id input.id input.occurred_at
          ≡ ok (rows, some activated))
      × Changed t t' rows organization_id input.actor_membership_id input.metadata

  abbrev pub Resent : String → ResendInvitationInput → InvitationRow → Type 0
  Resent previous_id input activated =
      (previous : InvitationRow) × (actor : MembershipRow) × (find
          (is_resendable organization_id previous_id input.occurred_at) t.invitations
        ≡ some previous)
      × (find (is_member organization_id input.actor_membership_id) t.memberships ≡ some actor)
      × (may_manage actor.role ≡ true)
      × (t'.memberships ≡ t.memberships)
      × (t'.assignments ≡ t.assignments)
      × Replaced previous_id input previous activated

  replaced :
      (previous_id : String) (input : ResendInvitationInput) (previous : InvitationRow)
      (answer : Option InvitationRow)
      → replace_invitation to_json digest t now organization_id previous_id input previous
        ≡ ok (t', answer)
      → (activated : InvitationRow) × (answer ≡ some activated)
        × (t'.memberships ≡ t.memberships)
        × (t'.assignments ≡ t.assignments)
        × Replaced previous_id input previous activated
  unfolding replace_invitation reissued audit_event outbox_event
  replaced previous_id input previous answer e =
      let (inserted, k, e1) = bound (insert_invitation t.invitations _) _ (t', answer) e in
      let (superseded, l, e2) =
        bound (supersede_previous inserted organization_id previous_id _ _) _ (t', answer) e1 in
      let ((rows, woken), m, e3) =
        bound (activate_replacement superseded organization_id input.id _) _ (t', answer) e2 in
      awake inserted superseded rows woken k l m e3
    where
      awake :
          (inserted superseded rows : List InvitationRow) (woken : Option InvitationRow)
          → insert_invitation t.invitations (replacement digest organization_id input previous)
            ≡ ok inserted
          → supersede_previous inserted organization_id previous_id input.id input.occurred_at
            ≡ ok superseded
          → activate_replacement superseded organization_id input.id input.occurred_at
            ≡ ok (rows, woken)
          → reissued to_json digest t now organization_id previous_id input (rows, woken)
            ≡ ok (t', answer)
          → (activated : InvitationRow) × (answer ≡ some activated)
            × (t'.memberships ≡ t.memberships)
            × (t'.assignments ≡ t.assignments)
            × Replaced previous_id input previous activated
      awake inserted superseded rows none k l m h = absurd (cc)
      awake inserted superseded rows (some activated) k l m h =
          let finish : Directory → Directory × Option InvitationRow = λ d. (d, some activated) in
          let (u, same, members, roles, changed) =
            ended finish (t', answer) now t t.tables rows _ _ input.metadata h refl refl refl
              refl in
          let same' : u ≡ t' = cc in
          (
            activated,
            cc,
            rw (sym same') members,
            rw (sym same') roles,
            (inserted, superseded, rows, k, l, m, rw (sym same') changed),
          )

  pub resend_inv :
      (previous_id : String) (input : ResendInvitationInput) (answer : Option InvitationRow)
      → resend_invitation to_json digest t now organization_id previous_id input ≡ ok (t', answer)
      → ((t' ≡ t) × (answer ≡ none))
        ⊎ ((activated : InvitationRow) × (answer ≡ some activated)
            × Resent previous_id input activated)
  unfolding resend_invitation resend_found
  resend_inv previous_id input answer e =
      elim (Bool-cases (lock_organization t.tables organization_id)) [
        | inr n ↦ inl (cc (rw n at e), cc (rw n at e))
        | inl y ↦ found _ _ refl refl (rw y at e)
      ]
    where
      found :
          (previous : Option InvitationRow) (actor : Option MembershipRow)
          → find (is_resendable organization_id previous_id input.occurred_at) t.invitations
            ≡ previous
          → find (is_member organization_id input.actor_membership_id) t.memberships ≡ actor
          → resend_found to_json digest t now organization_id previous_id input previous actor
            ≡ ok (t', answer)
          → ((t' ≡ t) × (answer ≡ none))
            ⊎ ((activated : InvitationRow) × (answer ≡ some activated)
                × Resent previous_id input activated)
      found none actor k l h = inl (cc, cc)
      found (some previous) none k l h = inl (cc, cc)
      found (some previous) (some actor) k l h = elim (Bool-cases (may_manage actor.role)) [
        | inr n ↦ inl (cc (rw n at h), cc (rw n at h))
        | inl y ↦
            let (activated, same, members, roles, done) =
              replaced previous_id input previous answer (rw y at h) in
            inr (activated, same, (previous, actor, k, l, y, members, roles, done))
      ]
