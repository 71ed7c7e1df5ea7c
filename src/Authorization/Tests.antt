-- ===== src/Authorization/Tests.antt =====
-- Runs of `can`, and its theorems at concrete inputs.
use mathlib.Core.List.{Memᴰ}
use tabela_pubg.Prelude.{◌≡◌, refl, ◌↔◌, String, true, false, Option, none, some, List, [], ◌∷◌}
use tabela_pubg.Authorization.{
  AuthorizationInput, OperationalRoleAssignment, AuthorizationSnapshot, permission_set,
  organization_permission_set, organization_roles, operational_roles, authorization_statuses,
  owner_permissions, admin_permissions, organization_role_permissions, operational_role_permissions,
  is_known_permission, is_known_organization_role, has_valid_snapshot_vocabulary,
  organization_role_allows, operational_role_allows, can,
}
use tabela_pubg.Authorization.Decisions.{can_iff, IsEligible, IsGranted, has-Memᴰ}

-- What a run of `can` unfolds.
running : Unit {0}
unfolding can permission_set organization_permission_set organization_roles operational_roles
    authorization_statuses owner_permissions admin_permissions organization_role_permissions
    operational_role_permissions is_known_permission is_known_organization_role
    has_valid_snapshot_vocabulary organization_role_allows operational_role_allows
running = tt

abbrev ask : Option String → String → AuthorizationInput
ask scope permission = record {
  actor_id = "u1";
  organization_id = "o1";
  authorization_scope_id = scope;
  permission = permission;
}

abbrev refereeing : OperationalRoleAssignment
refereeing = record {
  organization_id = "o1";
  authorization_scope_id = "s1";
  role = "referee";
  status = "active";
}

abbrev member_with : Option String → List OperationalRoleAssignment → AuthorizationSnapshot
member_with role assignments = record {
  actor_id = "u1";
  organization_id = "o1";
  membership_status = "active";
  organization_role = role;
  assignments = assignments;
}

abbrev judge : OperationalRoleAssignment
judge = record refereeing { role = "judge" }

decisions :
    (can (ask (some "s1") "tournament:competition:manage") (member_with none (refereeing ∷ []))
      ≡ true)
    × (can (ask (some "s2") "tournament:competition:manage") (member_with none (refereeing ∷ []))
        ≡ false)
    × (can (ask none "organization:audit:self:read") (member_with none []) ≡ true)
    × (can (ask none "organization:ownership:transfer") (member_with (some "admin") []) ≡ false)
    × (can (ask none "organization:ownership:transfer") (member_with (some "owner") []) ≡ true)
    × (can (ask none "organization:everything") (member_with (some "owner") []) ≡ false)
unfolding running
decisions = (refl, refl, refl, refl, refl, refl)

can_iff_example :
    (can (ask (some "s1") "tournament:competition:manage") (member_with none (refereeing ∷ []))
      ≡ true)
    ↔ (IsEligible
          (ask (some "s1") "tournament:competition:manage")
          (member_with none (refereeing ∷ []))
        × IsGranted
            (ask (some "s1") "tournament:competition:manage")
            (member_with none (refereeing ∷ [])))
can_iff_example =
    can_iff (ask (some "s1") "tournament:competition:manage") (member_with none (refereeing ∷ []))

referee_known : Memᴰ "referee" operational_roles
unfolding operational_roles
referee_known = has-Memᴰ _ "referee" refl

analyst_known : Memᴰ "analyst" operational_roles
unfolding operational_roles
analyst_known = has-Memᴰ _ "analyst" refl
