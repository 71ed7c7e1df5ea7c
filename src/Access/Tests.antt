-- ===== src/Access/Tests.antt =====
-- A member before and after the removal.
use tabela_pubg.Prelude.{◌≡◌, refl, String, true, false, none, some, List, [], ◌∷◌, find, ok}
use tabela_pubg.Authorization.{
  AuthorizationInput, can, permission_set, organization_permission_set, organization_roles,
  operational_roles, authorization_statuses, owner_permissions, admin_permissions,
  organization_role_permissions, operational_role_permissions, is_known_permission,
  is_known_organization_role, has_valid_snapshot_vocabulary, organization_role_allows,
  operational_role_allows,
}
use tabela_pubg.Organizations.{
  owner, admin, active, MembershipRow, OrganizationRole, Tables, is_member, is_sensitive_field,
  has_at_sign, sanitize_snapshot, append_audit_event,
}
use tabela_pubg.Outbox.{append_outbox_event, to_outbox_record}
use tabela_pubg.Members.{
  MutationMetadata, removed, lock_organization, revoke_member, is_active_owner, audit_event,
  outbox_event, conclude,
}
use tabela_pubg.Members.Exits.{apply_removal, revoke_target, revoke_membership}
use tabela_pubg.Members.Roles.{is_assigned}
use tabela_pubg.Access.{is_membership, load_authorization_snapshot, may}
use tabela_pubg.Access.Decisions.{HasAccess, may-HasAccess, HasDistinctUsers, may-removed}

running : Unit {0}
unfolding append_outbox_event to_outbox_record is_member is_sensitive_field has_at_sign
    sanitize_snapshot append_audit_event lock_organization revoke_member is_active_owner audit_event
    outbox_event conclude apply_removal revoke_target revoke_membership is_assigned is_membership
    load_authorization_snapshot may can permission_set organization_permission_set
    organization_roles operational_roles authorization_statuses owner_permissions admin_permissions
    organization_role_permissions operational_role_permissions is_known_permission
    is_known_organization_role has_valid_snapshot_vocabulary organization_role_allows
    operational_role_allows
running = tt

abbrev membership : String → String → OrganizationRole → MembershipRow
membership id user_id role = record {
  id = id;
  organization_id = "o1";
  user_id = user_id;
  role = role;
  status = active;
  joined_at = 0;
  revoked_at = none;
  revocation_reason = none;
  updated_at = 0;
}

abbrev rows : List MembershipRow
rows = membership "m1" "u1" owner ∷ membership "m2" "u2" admin ∷ []

abbrev before : Tables
before = record {
  organizations = "o1" ∷ [];
  memberships = rows;
  scopes = [];
  assignments = [];
  audit_events = [];
  outbox_events = [];
}

abbrev metadata : MutationMetadata
metadata = record {
  audit_event_id = "a1";
  outbox_event_id = "e1";
  correlation_id = "x1";
  reason = "season end";
  occurred_at = 1000;
}

abbrev as_text : List (String × String) → String
as_text fields = "{}"

removal_run :
    (after : Tables) × (revoke_membership as_text before 2000 "o1" "m2" "m1" metadata
      ≡ ok (after, removed))
unfolding running
removal_run = (_, refl)

abbrev request : AuthorizationInput
request = record {
  actor_id = "u2";
  organization_id = "o1";
  authorization_scope_id = none;
  permission = "organization:members:manage";
}

distinct : HasDistinctUsers rows
unfolding running
distinct = ((refl, tt), (tt, tt))

admitted_before : may before request ≡ true
unfolding running
admitted_before = refl

may-HasAccess_example : HasAccess before "o1" "u2"
may-HasAccess_example = may-HasAccess before request admitted_before

found : find (is_member "o1" "m2") rows ≡ some (membership "m2" "u2" admin)
unfolding running
found = refl

may-removed_example : may removal_run.0 request ≡ false
may-removed_example =
    may-removed as_text before removal_run.0 2000 "o1" "m2" "m1" metadata
      (membership "m2" "u2" admin) distinct found request removal_run.1 refl refl
