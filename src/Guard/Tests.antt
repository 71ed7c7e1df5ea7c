-- ===== src/Guard/Tests.antt =====
-- Runs of the guard, and its theorems there.
use tabela_pubg.Prelude.{
  ◌≡◌, ◌⊎◌, ◌↔◌, refl, String, Bool, true, false, none, some, [], ◌∷◌, Result, ok,
}
use tabela_pubg.Organizations.{owner, active, Tables}
use tabela_pubg.Authorization.{
  AuthorizationInput, can, permission_set, organization_permission_set, organization_roles,
  operational_roles, authorization_statuses, owner_permissions, admin_permissions,
  organization_role_permissions, operational_role_permissions, is_known_permission,
  is_known_organization_role, has_valid_snapshot_vocabulary, organization_role_allows,
  operational_role_allows,
}
use tabela_pubg.Access.{may, load_authorization_snapshot, is_membership}
use tabela_pubg.Guard.{
  Request, Route, allowed, forbidden, absent, single, can_activate, denial,
  organization_context_mismatch,
}
use tabela_pubg.Guard.Decisions.{Entitled, can_activate_iff}
use tabela_pubg.Guard.Members.{Member, can_activate-Member}

abbrev club : String
club = "1b4e28ba-2fa1-41d2-883f-0016d3cca427"

abbrev tables : Tables
tables = record {
  organizations = club ∷ [];
  memberships =
      record {
        id = "m1";
        organization_id = club;
        user_id = "u1";
        role = owner;
        status = active;
        joined_at = 0;
        revoked_at = none;
        revocation_reason = none;
        updated_at = 0;
      }
      ∷ [];
  scopes = [];
  assignments = [];
  audit_events = [];
  outbox_events = [];
}

abbrev route : Route
route = record {
  is_public = false;
  permission = some "organization:members:manage";
  allow_provisional = false;
}

-- The header spells the id in capitals.
abbrev request : Request
request = record {
  auth = some (record { actor_id = "u1"; session_id = "s1"; trust = "trusted" });
  organization_param = some club;
  scope_param = none;
  organization_header = single "1B4E28BA-2FA1-41D2-883F-0016D3CCA427";
  scope_header = absent;
  correlation_header = absent;
}

abbrev decision : AuthorizationInput → Result Bool
decision input = ok (may tables input)

member_run : can_activate decision route request ≡ allowed
unfolding can_activate may load_authorization_snapshot is_membership can permission_set
    organization_permission_set organization_roles operational_roles authorization_statuses
    owner_permissions admin_permissions organization_role_permissions operational_role_permissions
    is_known_permission is_known_organization_role has_valid_snapshot_vocabulary
    organization_role_allows operational_role_allows
member_run = refl

abbrev outside : Request
outside = record request { organization_header = single "2b4e28ba-2fa1-41d2-883f-0016d3cca427" }

mismatch_run :
    can_activate decision route outside
    ≡ forbidden (
        denial (record {
          reason = organization_context_mismatch;
          correlation_id = "unavailable";
          actor_id = "u1";
          session_id = "s1";
          route_organization_id = some club;
          route_authorization_scope_id = none;
          permission = "organization:members:manage";
        }))
unfolding can_activate
mismatch_run = refl

can_activate_iff_example :
    (can_activate decision route request ≡ allowed)
    ↔ ((route.is_public ≡ true) ⊎ Entitled decision route request)
can_activate_iff_example = can_activate_iff decision route request

can_activate-Member_example : Member tables request
can_activate-Member_example =
    can_activate-Member tables route request "organization:members:manage" refl refl refl member_run
