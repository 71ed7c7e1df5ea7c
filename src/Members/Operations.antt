-- ===== src/Members/Operations.antt =====
-- The three operations on members as one type of requests, and what each leaves of the tables.
use tabela_pubg.Prelude.{bound, ℕ, ◌≡◌, refl, sym, String, List, [], ◌∷◌, ◌++◌, arith, ok, Result}
use tabela_pubg.Outbox.{
  OutboxEventRow, EventEnvelope, append_outbox_event, to_outbox_record, pending,
}
use tabela_pubg.Organizations.{AuditEventRow, Tables, append_audit_event, sanitize_snapshot}
use tabela_pubg.Members.{MutationMetadata, UpdateMembershipRolesInput, MemberStatus, append_events}
use tabela_pubg.Members.Exits.{revoke_membership, transfer_ownership}
use tabela_pubg.Members.Updates.{update_membership_roles}

pub data Request : Type 0 where
  new_roles : (membership_id : String) (input : UpdateMembershipRolesInput) → Request
  removal : (membership_id actor_id : String) (input : MutationMetadata) → Request
  transfer : (current_owner_id new_owner_id : String) (input : MutationMetadata) → Request

-- Who asks, by the membership.
abbrev pub asks : Request → String
asks (new_roles membership_id input) = input.actor_membership_id
asks (removal membership_id actor_id input) = actor_id
asks (transfer current_owner_id new_owner_id input) = current_owner_id

abbrev pub metadata_of : Request → MutationMetadata
metadata_of (new_roles membership_id input) = input.metadata
metadata_of (removal membership_id actor_id input) = input
metadata_of (transfer current_owner_id new_owner_id input) = input

abbrev pub run :
    (List (String × String) → String)
    → Tables
    → ℕ
    → String
    → Request
    → Result (Tables × MemberStatus)
run to_json t now organization_id (new_roles membership_id input) =
    update_membership_roles to_json t now organization_id membership_id input
run to_json t now organization_id (removal membership_id actor_id input) =
    revoke_membership to_json t now organization_id membership_id actor_id input
run to_json t now organization_id (transfer current_owner_id new_owner_id input) =
    transfer_ownership to_json t now organization_id current_owner_id new_owner_id input

-- A change is recorded by one audit event and one outbox event, and is the given one in the members
-- and assignments.
pub record Recorded (t t' : Tables) (organization_id actor : String) (input : MutationMetadata)
    : Type 0 where
  pub audit : AuditEventRow
  pub audited : t'.audit_events ≡ t.audit_events ++ audit ∷ []
  pub audit_id : audit.id ≡ input.audit_event_id
  pub audit_organization : audit.organization_id ≡ organization_id
  pub audit_actor : audit.actor_membership_id ≡ actor
  pub outbox : OutboxEventRow
  pub queued : t'.outbox_events ≡ t.outbox_events ++ outbox ∷ []
  pub outbox_id : outbox.id ≡ input.outbox_event_id
  pub outbox_status : outbox.status ≡ pending

audit_row :
    (events events' : List AuditEventRow) (input : AuditEventRow)
    → append_audit_event events input ≡ ok events'
    → events'
      ≡ events
        ++ record input {
          before = sanitize_snapshot input.before;
          after = sanitize_snapshot input.after;
        }
          ∷ []
unfolding append_audit_event
audit_row events events' input e = ground arith

outbox_row :
    (rows rows' : List OutboxEventRow) (event : EventEnvelope) (now : ℕ)
    → append_outbox_event rows event now ≡ ok rows'
    → rows' ≡ rows ++ to_outbox_record event now ∷ []
unfolding append_outbox_event
outbox_row rows rows' event now e = ground arith

-- What `append_events` has done when it succeeds.
pub append_events_lem :
    (now : ℕ) (changed t' : Tables) (audit : AuditEventRow) (event : EventEnvelope)
    → append_events now changed audit event ≡ ok t'
    → (t'.memberships ≡ changed.memberships)
      × (t'.assignments ≡ changed.assignments)
      × (t'.organizations ≡ changed.organizations)
      × (t'.audit_events
          ≡ changed.audit_events
            ++ record audit {
              before = sanitize_snapshot audit.before;
              after = sanitize_snapshot audit.after;
            }
              ∷ [])
      × (t'.outbox_events ≡ changed.outbox_events ++ to_outbox_record event now ∷ [])
unfolding append_events
append_events_lem now changed t' audit event e =
    let (a, k, l) = bound (append_audit_event changed.audit_events audit) _ t' e in
    let (o, m, n) = bound (append_outbox_event changed.outbox_events event now) _ t' l in
    let same : (record changed { audit_events = a; outbox_events = o }) ≡ t' = cc in
    (
      rw (sym same) refl,
      rw (sym same) refl,
      rw (sym same) refl,
      rw (sym same) (audit_row changed.audit_events a audit k),
      rw (sym same) (outbox_row changed.outbox_events o event now m),
    )
