-- ===== src/Access.antt =====
-- packages/database/src/repositories/authorization.ts, the snapshot that a decision is made from, and
-- how apps/api/src/main.ts gives it to `can`: without a membership, as a revoked one.
pub mod Decisions
pub mod Tests
use tabela_pubg.Prelude.{
  String, Bool, true, false, ◌&&◌, Option, none, some, List, [], ◌∷◌, map, select, find, str_eq,
}
use tabela_pubg.Authorization.{
  AuthorizationInput, OperationalRoleAssignment, AuthorizationSnapshot, can,
}
use tabela_pubg.Organizations.{
  OrganizationRole, owner, admin, member, MembershipStatus, active, revoked, MembershipRow,
  RoleAssignmentRow, Tables, is_active,
}
use tabela_pubg.Members.{role_text}
use tabela_pubg.Members.Roles.{is_assigned}

abbrev pub status_text : MembershipStatus → String
status_text active = "active"
status_text revoked = "revoked"

-- Only an owner and an admin have a role here.
abbrev pub snapshot_role : OrganizationRole → Option String
snapshot_role owner = some "owner"
snapshot_role admin = some "admin"
snapshot_role member = none

abbrev pub assignment_of : RoleAssignmentRow → OperationalRoleAssignment
assignment_of a = record {
  organization_id = a.organization_id;
  authorization_scope_id = a.authorization_scope_id;
  role = role_text a.role;
  status = "active";
}

unfoldable pub is_membership : String → String → MembershipRow → Bool
is_membership organization_id user_id m =
    str_eq m.organization_id organization_id && str_eq m.user_id user_id

abbrev pub assignments_of :
    Tables → String → MembershipRow → MembershipStatus → List RoleAssignmentRow
assignments_of t organization_id m active = select (is_assigned organization_id m.id) t.assignments
assignments_of t organization_id m revoked = []

abbrev pub snapshot_of :
    Tables → String → String → Option MembershipRow → Option AuthorizationSnapshot
snapshot_of t organization_id user_id none = none
snapshot_of t organization_id user_id (some m) = some (record {
  actor_id = user_id;
  organization_id = organization_id;
  membership_status = status_text m.status;
  organization_role = snapshot_role m.role;
  assignments = map assignment_of (assignments_of t organization_id m m.status);
})

unfoldable pub load_authorization_snapshot : Tables → String → String → Option AuthorizationSnapshot
load_authorization_snapshot t organization_id user_id =
    snapshot_of t organization_id user_id
      (find (is_membership organization_id user_id) t.memberships)

abbrev pub or_revoked : String → String → Option AuthorizationSnapshot → AuthorizationSnapshot
or_revoked organization_id actor_id (some current) = record {
  actor_id = actor_id;
  organization_id = organization_id;
  membership_status = current.membership_status;
  organization_role = current.organization_role;
  assignments = current.assignments;
}
or_revoked organization_id actor_id none = record {
  actor_id = actor_id;
  organization_id = organization_id;
  membership_status = "revoked";
  organization_role = none;
  assignments = [];
}

-- `AuthorizationService.can` over that loader.
unfoldable pub may : Tables → AuthorizationInput → Bool
may t input = can input (
    or_revoked input.organization_id input.actor_id
      (load_authorization_snapshot t input.organization_id input.actor_id))
