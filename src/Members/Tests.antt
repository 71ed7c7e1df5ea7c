-- ===== src/Members/Tests.antt =====
-- Runs of the requests on members, and their theorems there.
use tabela_pubg.Prelude.{
  ◌≤◌, ◌≡◌, ◌⊎◌, refl, String, not, none, List, [], ◌∷◌, count, select, str_eq, arith, ok,
  HasDistinctKeys, eq_iff,
}
use tabela_pubg.Outbox.{append_outbox_event, to_outbox_record}
use tabela_pubg.Organizations.{
  owner, member, active, MembershipRow, referee, Tables, member_id, is_member, is_sensitive_field,
  has_at_sign, sanitize_snapshot, append_audit_event, OrganizationRole,
}
use tabela_pubg.Members.{
  MutationMetadata, as_admin, MemberStatus, updated, removed, transferred, last_owner, unavailable,
  lock_organization, role_key, set_role, revoke_member, is_active_owner, audit_event, outbox_event,
  conclude,
}
use tabela_pubg.Members.Exits.{
  apply_removal, revoke_target, revoke_membership, is_party, transferred_memberships,
  apply_transfer, transfer_ownership,
}
use tabela_pubg.Members.Updates.{apply_roles, update_target, update_membership_roles}
use tabela_pubg.Members.Roles.{
  is_open_scope, validate_role_payload, is_assigned, list_active_assignments_for_membership,
  insert_text, sorted, join, roles_text, clashes, insert_assignments, assignment_rows,
  revoke_assignment,
}
use tabela_pubg.Members.Operations.{Request, new_roles, removal, transfer, run}
use tabela_pubg.Members.Outcomes.{Refused}
use tabela_pubg.Members.Ownership.{run-HasOwner}
use tabela_pubg.Members.Requests.{Accepted, run-Accepted, run_elsewhere}

running : Unit {0}
unfolding append_outbox_event to_outbox_record is_member is_sensitive_field has_at_sign
    sanitize_snapshot append_audit_event lock_organization role_key is_open_scope
    validate_role_payload is_assigned list_active_assignments_for_membership insert_text sorted join
    roles_text clashes insert_assignments assignment_rows revoke_assignment set_role revoke_member
    is_active_owner audit_event outbox_event conclude apply_roles update_target
    update_membership_roles apply_removal revoke_target revoke_membership is_party
    transferred_memberships apply_transfer transfer_ownership
running = tt

abbrev member_row : String → String → OrganizationRole → MembershipRow
member_row id organization_id role = record {
  id = id;
  organization_id = organization_id;
  user_id = id;
  role = role;
  status = active;
  joined_at = 0;
  revoked_at = none;
  revocation_reason = none;
  updated_at = 0;
}

abbrev members : List MembershipRow
members = member_row "m1" "o1" owner ∷ member_row "m2" "o1" member ∷ member_row "m3" "o2" owner ∷ []

abbrev tables : Tables
tables = record {
  organizations = "o1" ∷ "o2" ∷ [];
  memberships = members;
  scopes = record { id = "c1"; organization_id = "o1"; label = "Cup"; archived_at = none } ∷ [];
  assignments = [];
  audit_events = [];
  outbox_events = [];
}

abbrev metadata : MutationMetadata
metadata = record {
  audit_event_id = "a1";
  outbox_event_id = "e1";
  correlation_id = "x1";
  reason = "season start";
  occurred_at = 1000;
}

abbrev as_text : List (String × String) → String
as_text fields = "{}"

abbrev promotion : Request
promotion = new_roles "m2" (record {
  metadata = metadata;
  actor_membership_id = "m1";
  organization_role = as_admin;
  role_payload = record { authorization_scope_id = "c1"; role = referee } ∷ [];
  assignment_ids = "r1" ∷ [];
})

abbrev Answer : Request → MemberStatus → Type 0
Answer request status =
    (after : Tables) × (run as_text tables 2000 "o1" request ≡ ok (after, status))

promotion_run : Answer promotion updated
unfolding running
promotion_run = (_, refl)

transfer_run : Answer (transfer "m1" "m2" metadata) transferred
unfolding running
transfer_run = (_, refl)

removal_run : Answer (removal "m2" "m1" metadata) removed
unfolding running
removal_run = (_, refl)

last_owner_run : run as_text tables 2000 "o1" (removal "m1" "m1" metadata) ≡ ok (tables, last_owner)
unfolding running
last_owner_run = refl

-- A member may not remove another one.
member_run : run as_text tables 2000 "o1" (removal "m1" "m2" metadata) ≡ ok (tables, unavailable)
unfolding running
member_run = refl

members-distinct : HasDistinctKeys member_id members
members-distinct = (
  (λ e. absurd (cc ((eq_iff "m2" "m1").1 e)), (λ e. absurd (cc ((eq_iff "m3" "m1").1 e)), tt)),
  ((λ e. absurd (cc ((eq_iff "m3" "m2").1 e)), tt), (tt, tt)),
)

owned : 1 ≤ count (is_active_owner "o1") members
unfolding running
owned = omega arith

run-HasOwner_example : 1 ≤ count (is_active_owner "o1") transfer_run.0.memberships
run-HasOwner_example =
    run-HasOwner as_text tables transfer_run.0 2000 "o1" transferred members-distinct
      (transfer "m1" "m2" metadata) "o1" transfer_run.1 owned

run-Accepted_example :
    Refused tables promotion_run.0 updated ⊎ Accepted tables promotion_run.0 "o1" promotion
run-Accepted_example =
    run-Accepted as_text tables promotion_run.0 2000 "o1" updated promotion promotion_run.1

run_elsewhere_example :
    select (λ m. not (str_eq m.organization_id "o1")) removal_run.0.memberships
    ≡ select (λ m. not (str_eq m.organization_id "o1")) tables.memberships
run_elsewhere_example =
    run_elsewhere as_text tables removal_run.0 2000 "o1" removed (removal "m2" "m1" metadata)
      removal_run.1
