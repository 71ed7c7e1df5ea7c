-- ===== src/Members/Updates.antt =====
-- packages/database/src/repositories/organizations.ts: updateMembershipRoles.
use tabela_pubg.Prelude.{
  ℕ, String, not, ◌&&◌, ◌||◌, Option, none, some, List, [], ◌∷◌, map, find, update, count, length,
  leb, ◌==◌, if◌then◌else◌, Result, ok, ◌>>=◌,
}
use tabela_pubg.Organizations.{MembershipRow, Tables, is_owner, is_member}
use tabela_pubg.Members.{
  given, UpdateMembershipRolesInput, MemberStatus, updated, last_owner, unavailable,
  lock_organization, organization_role_text, role_key, set_role, is_active_owner, is_manager,
  is_owning, audit_event, outbox_event, conclude,
}
use tabela_pubg.Members.Roles.{
  validate_role_payload, is_assigned, list_active_assignments_for_membership, roles_text,
  insert_assignments, assignment_rows, revoke_assignment,
}

module _ (to_json : List (String × String) → String) (t : Tables) (available_at : ℕ)
    (organization_id membership_id : String) where
  unfoldable pub apply_roles :
      UpdateMembershipRolesInput → MembershipRow → Result (Tables × MemberStatus)
  apply_roles input target = do
    let previous = list_active_assignments_for_membership t organization_id membership_id
    assignments ←
        insert_assignments
          (update (is_assigned organization_id membership_id) (revoke_assignment input.metadata)
            t.assignments)
          (assignment_rows organization_id membership_id input input.assignment_ids
            input.role_payload)
    let memberships =
        update (is_member organization_id membership_id)
          (set_role (given input.organization_role) input.occurred_at) t.memberships
    conclude available_at (record t { assignments = assignments; memberships = memberships })
        (audit_event input.metadata organization_id input.actor_membership_id
          "membership.roles.updated" "organization-membership" membership_id
          (("organizationRole", some (organization_role_text target.role))
            ∷ (
              "operationalRoles",
              some (roles_text (map (λ a. role_key a.authorization_scope_id a.role) previous)),
            )
            ∷ [])
          (("organizationRole", some (organization_role_text (given input.organization_role)))
            ∷ (
              "operationalRoles",
              some (
                  roles_text
                    (map (λ e. role_key e.authorization_scope_id e.role) input.role_payload)),
            )
            ∷ []))
        (outbox_event input.metadata "membership.roles.updated" "organization-membership"
          membership_id
          (to_json (("organizationId", organization_id) ∷ ("membershipId", membership_id) ∷ [])))
        updated

  unfoldable pub update_target :
      UpdateMembershipRolesInput
      → Option MembershipRow
      → Option MembershipRow
      → Result (Tables × MemberStatus)
  update_target input none actor = ok (t, unavailable)
  update_target input (some target) actor =
      if not (is_manager actor)
        || (is_owner target.role && not (is_owning actor))
        || not (length input.assignment_ids == length input.role_payload)
        || not (validate_role_payload t organization_id [] input.role_payload)
      then ok (t, unavailable)
      else if is_owner target.role && leb (count (is_active_owner organization_id) t.memberships) 1
      then ok (t, last_owner)
      else apply_roles input target

  unfoldable pub update_membership_roles :
      UpdateMembershipRolesInput → Result (Tables × MemberStatus)
  update_membership_roles input =
      if not (lock_organization t organization_id)
      then ok (t, unavailable)
      else update_target input (find (is_member organization_id membership_id) t.memberships)
          (find (is_member organization_id input.actor_membership_id) t.memberships)
