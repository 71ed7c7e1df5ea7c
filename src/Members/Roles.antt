-- ===== src/Members/Roles.antt =====
-- packages/database/src/repositories/organizations.ts, the operational roles of a member: their
-- validation, their assignments, and how the audit log names them.
use tabela_pubg.Prelude.{
  String, Bool, true, false, ◌&&◌, ◌||◌, none, some, List, [], ◌∷◌, ◌++◌, any, select, find,
  if◌then◌else◌, str_eq, is_none, Result, ok, err, str_append, compare_text,
}
use Prim.Native.Nat.{Ordering}
use tabela_pubg.Organizations.{
  active, revoked, RoleAssignmentRow, AuthorizationScopeRow, Tables, is_active,
}
use tabela_pubg.Members.{RolePayloadEntry, MutationMetadata, UpdateMembershipRolesInput, role_key}

unfoldable pub is_open_scope : String → String → AuthorizationScopeRow → Bool
is_open_scope organization_id id s =
    str_eq s.organization_id organization_id && str_eq s.id id && is_none s.archived_at

unfoldable pub validate_role_payload : Tables → String → List String → List RolePayloadEntry → Bool
validate_role_payload t organization_id seen [] = true
validate_role_payload t organization_id seen (e ∷ es) =
    let key = role_key e.authorization_scope_id e.role in
    let rest = validate_role_payload t organization_id (key ∷ seen) es in
    if any (λ k. str_eq k key) seen
    then false
    else if is_none (find (is_open_scope organization_id e.authorization_scope_id) t.scopes)
    then false
    else rest

unfoldable pub is_assigned : String → String → RoleAssignmentRow → Bool
is_assigned organization_id membership_id a =
    str_eq a.organization_id organization_id
    && str_eq a.membership_id membership_id
    && is_active a.status

-- The join with the scopes keeps the assignments that have one.
unfoldable pub list_active_assignments_for_membership :
    Tables → String → String → List RoleAssignmentRow
list_active_assignments_for_membership t organization_id membership_id =
    select
      (λ a.
        is_assigned organization_id membership_id a
        && any
            (λ s.
              str_eq s.organization_id a.organization_id && str_eq s.id a.authorization_scope_id)
            t.scopes)
      t.assignments

-- `toSorted`, by code points
unfoldable pub insert_text : String → List String → List String
insert_text t [] = t ∷ []
insert_text t (u ∷ us) =
    let rest = insert_text t us in
    elim (compare_text t u) [ Ordering.gt ↦ u ∷ rest | _ ↦ t ∷ u ∷ us ]

unfoldable pub sorted : List String → List String
sorted [] = []
sorted (t ∷ ts) = insert_text t (sorted ts)

unfoldable pub join : List String → String
join [] = ""
join (t ∷ []) = t
join (t ∷ u ∷ us) = str_append t (str_append "," (join (u ∷ us)))

-- `… .toSorted().join(",") || "none"`
unfoldable pub roles_text : List String → String
roles_text keys = let text = join (sorted keys) in if str_eq text "" then "none" else text

unfoldable pub clashes : RoleAssignmentRow → RoleAssignmentRow → Bool
clashes row a =
    str_eq a.id row.id
    || (is_assigned row.organization_id row.membership_id a
        && str_eq (role_key a.authorization_scope_id a.role)
            (role_key row.authorization_scope_id row.role))

-- The ids are unique, and so is an active role of a member in a scope.
unfoldable pub insert_assignments :
    List RoleAssignmentRow → List RoleAssignmentRow → Result (List RoleAssignmentRow)
insert_assignments rows [] = ok rows
insert_assignments rows (row ∷ more) =
    if any (clashes row) rows
    then err "duplicate key value violates unique constraint"
    else insert_assignments (rows ++ row ∷ []) more

unfoldable pub assignment_rows :
    String
    → String
    → UpdateMembershipRolesInput
    → List String
    → List RolePayloadEntry
    → List RoleAssignmentRow
assignment_rows organization_id membership_id input (id ∷ ids) (e ∷ es) =
    record {
      id = id;
      organization_id = organization_id;
      membership_id = membership_id;
      authorization_scope_id = e.authorization_scope_id;
      role = e.role;
      status = active;
      assigned_by_membership_id = input.actor_membership_id;
      assignment_reason = input.reason;
      assigned_at = input.occurred_at;
      revoked_at = none;
      revocation_reason = none;
    }
    ∷ assignment_rows organization_id membership_id input ids es
assignment_rows organization_id membership_id input _ _ = []

unfoldable pub revoke_assignment : MutationMetadata → RoleAssignmentRow → RoleAssignmentRow
revoke_assignment input a = record a {
  status = revoked;
  revoked_at = some input.occurred_at;
  revocation_reason = some input.reason;
}
