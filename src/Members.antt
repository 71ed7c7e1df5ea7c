-- ===== src/Members.antt =====
-- packages/database/src/repositories/organizations.ts, the part on members: new roles, a removal and
-- a transfer of ownership. Each runs in a transaction that has locked the organization, so it is one
-- step on the tables; an error leaves them as they were. `to_json` prints a payload.
pub mod Roles
pub mod Updates
pub mod Exits
pub mod Operations
pub mod Outcomes
pub mod Departures
pub mod Ownership
pub mod Requests
pub mod Tests
use tabela_pubg.Prelude.{
  ℕ, ◌+◌, String, Bool, true, false, not, ◌&&◌, ◌||◌, Option, none, some, List, [], ◌∷◌, ◌++◌, any,
  map, select, find, update, returning, first, count, length, leb, ◌==◌, if◌then◌else◌, str_eq,
  is_none, is_some, Result, ok, err, ◌>>=◌, str_append, compare_text,
}
use Prim.Native.Nat.{Ordering}
use tabela_pubg.Outbox.{OutboxEventRow, EventEnvelope, append_outbox_event}
use tabela_pubg.Organizations.{
  OrganizationRole, owner, admin, member, MembershipStatus, active, revoked, MembershipRow,
  OperationalRole, referee, registrations, broadcast, analyst, RoleAssignmentRow,
  AuthorizationScopeRow, AuditEventRow, AuditSnapshot, Tables, is_active, is_owner, may_manage,
  append_audit_event, is_member,
}

pub record RolePayloadEntry : Type 0 where
  pub authorization_scope_id : String
  pub role : OperationalRole

pub record MutationMetadata : Type 0 where
  pub audit_event_id : String
  pub outbox_event_id : String
  pub correlation_id : String
  pub reason : String
  pub occurred_at : ℕ

-- Ownership is not among the roles that are given this way.
pub data GivenRole : Type 0 where
  as_admin as_member : GivenRole

abbrev pub given : GivenRole → OrganizationRole
given as_admin = admin
given as_member = member

pub record UpdateMembershipRolesInput : Type 0 where
  pub metadata : MutationMetadata
  pub open metadata use *
  pub actor_membership_id : String
  pub organization_role : GivenRole
  pub role_payload : List RolePayloadEntry
  pub assignment_ids : List String

pub data MemberStatus : Type 0 where
  updated removed transferred last_owner unavailable : MemberStatus

unfoldable pub lock_organization : Tables → String → Bool
lock_organization t organization_id = any (λ o. str_eq o organization_id) t.organizations

abbrev pub role_text : OperationalRole → String
role_text referee = "referee"
role_text registrations = "registrations"
role_text broadcast = "broadcast"
role_text analyst = "analyst"

abbrev pub organization_role_text : OrganizationRole → String
organization_role_text owner = "owner"
organization_role_text admin = "admin"
organization_role_text member = "member"

unfoldable pub role_key : String → OperationalRole → String
role_key scope_id role = str_append scope_id (str_append ":" (role_text role))

unfoldable pub set_role : OrganizationRole → ℕ → MembershipRow → MembershipRow
set_role role now m = record m { role = role; updated_at = now }

unfoldable pub revoke_member : MutationMetadata → MembershipRow → MembershipRow
revoke_member input m = record m {
  status = revoked;
  revoked_at = some input.occurred_at;
  revocation_reason = some input.reason;
  updated_at = input.occurred_at;
}

unfoldable pub is_active_owner : String → MembershipRow → Bool
is_active_owner organization_id m =
    str_eq m.organization_id organization_id && is_owner m.role && is_active m.status

abbrev pub is_manager : Option MembershipRow → Bool
is_manager none = false
is_manager (some m) = may_manage m.role

abbrev pub is_owning : Option MembershipRow → Bool
is_owning none = false
is_owning (some m) = is_owner m.role

unfoldable pub audit_event :
    MutationMetadata
    → String
    → String
    → String
    → String
    → String
    → AuditSnapshot
    → AuditSnapshot
    → AuditEventRow
audit_event input organization_id actor action target_type target_id before after = record {
  id = input.audit_event_id;
  organization_id = organization_id;
  authorization_scope_id = none;
  actor_membership_id = actor;
  action = action;
  target_type = target_type;
  target_id = target_id;
  reason = input.reason;
  before = some before;
  after = some after;
  correlation_id = input.correlation_id;
  causation_id = none;
  occurred_at = input.occurred_at;
}

unfoldable pub outbox_event : MutationMetadata → String → String → String → String → EventEnvelope
outbox_event input type aggregate_type aggregate_id payload = record {
  id = input.outbox_event_id;
  type = type;
  version = 1;
  occurred_at = input.occurred_at;
  correlation_id = some input.correlation_id;
  causation_id = none;
  aggregate_type = aggregate_type;
  aggregate_id = aggregate_id;
  payload = payload;
}

-- The end of every change: the audit event, then the outbox event at the time of its insert.
unfoldable pub append_events : ℕ → Tables → AuditEventRow → EventEnvelope → Result Tables
append_events available_at changed audit event = do
  audit_events ← append_audit_event changed.audit_events audit
  outbox_events ← append_outbox_event changed.outbox_events event available_at
  ok (record changed { audit_events = audit_events; outbox_events = outbox_events })

-- With the answer.
unfoldable pub conclude :
    ℕ → Tables → AuditEventRow → EventEnvelope → MemberStatus → Result (Tables × MemberStatus)
unfolding append_events
conclude available_at changed audit event status = do
  t ← append_events available_at changed audit event
  ok (t, status)
