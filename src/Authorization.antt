-- ===== src/Authorization.antt =====
-- packages/authorization/src/index.ts: who may do what. Permissions, roles and statuses are texts,
-- as at run time, so that `can` also meets words outside its vocabulary.
pub mod Decisions
pub mod Isolation
pub mod Tests
use tabela_pubg.Prelude.{
  String, Bool, true, false, not, ◌&&◌, ◌||◌, Option, none, some, List, [], ◌∷◌, any, all, select,
  is_none, is_text, if◌then◌else◌, str_eq, starts_with,
}

-- `Set.prototype.has`
abbrev pub has : List String → String → Bool
has xs x = any (λ y. str_eq y x) xs

abbrev pub all_permissions : List String
all_permissions =
    "organization:settings:manage" ∷ "organization:members:manage" ∷ "organization:roles:manage"
    ∷ "organization:ownership:transfer" ∷ "organization:audit:read" ∷ "organization:audit:self:read"
    ∷ "tournament:competition:read" ∷ "tournament:competition:manage"
    ∷ "tournament:registrations:read" ∷ "tournament:registrations:manage"
    ∷ "tournament:broadcast:read" ∷ "tournament:broadcast:manage" ∷ "tournament:statistics:read"
    ∷ "tournament:statistics:export" ∷ []

pub record AuthorizationInput : Type 0 where
  pub actor_id : String
  pub organization_id : String
  pub authorization_scope_id : Option String
  pub permission : String

pub record OperationalRoleAssignment : Type 0 where
  pub organization_id : String
  pub authorization_scope_id : String
  pub role : String
  pub status : String

pub record AuthorizationSnapshot : Type 0 where
  pub actor_id : String
  pub organization_id : String
  pub membership_status : String
  pub organization_role : Option String
  pub assignments : List OperationalRoleAssignment

unfoldable pub permission_set : List String
permission_set = all_permissions

unfoldable pub organization_permission_set : List String
organization_permission_set = select (λ p. starts_with p "organization:") all_permissions

unfoldable pub organization_roles : List String
organization_roles = "owner" ∷ "admin" ∷ []

unfoldable pub operational_roles : List String
operational_roles = "referee" ∷ "registrations" ∷ "broadcast" ∷ "analyst" ∷ []

unfoldable pub authorization_statuses : List String
authorization_statuses = "active" ∷ "revoked" ∷ []

unfoldable pub owner_permissions : List String
owner_permissions = all_permissions

unfoldable pub admin_permissions : List String
admin_permissions = select (λ p. not (str_eq p "organization:ownership:transfer")) all_permissions

-- A role outside the vocabulary has no entry; `can` refuses it before it looks one up.
unfoldable pub organization_role_permissions : String → List String
organization_role_permissions role =
    if str_eq role "owner"
    then owner_permissions
    else if str_eq role "admin"
    then admin_permissions
    else []

unfoldable pub operational_role_permissions : String → List String
operational_role_permissions role =
    if str_eq role "referee"
    then "organization:audit:self:read" ∷ "tournament:competition:read"
      ∷ "tournament:competition:manage" ∷ "tournament:statistics:read" ∷ []
    else if str_eq role "registrations"
    then "organization:audit:self:read" ∷ "tournament:registrations:read"
      ∷ "tournament:registrations:manage" ∷ "tournament:statistics:read" ∷ []
    else if str_eq role "broadcast"
    then "organization:audit:self:read" ∷ "tournament:broadcast:read"
      ∷ "tournament:broadcast:manage" ∷ "tournament:statistics:read" ∷ []
    else if str_eq role "analyst"
    then "organization:audit:self:read" ∷ "tournament:competition:read"
      ∷ "tournament:registrations:read" ∷ "tournament:broadcast:read" ∷ "tournament:statistics:read"
      ∷ "tournament:statistics:export" ∷ []
    else []

unfoldable pub is_known_permission : String → Bool
is_known_permission permission = has permission_set permission

unfoldable pub is_known_organization_role : Option String → Bool
is_known_organization_role none = true
is_known_organization_role (some role) = has organization_roles role

abbrev pub is_known_assignment : OperationalRoleAssignment → Bool
is_known_assignment a = has operational_roles a.role && has authorization_statuses a.status

unfoldable pub has_valid_snapshot_vocabulary : AuthorizationSnapshot → Bool
has_valid_snapshot_vocabulary snapshot =
    has authorization_statuses snapshot.membership_status
    && is_known_organization_role snapshot.organization_role
    && all is_known_assignment snapshot.assignments

unfoldable pub organization_role_allows : String → Option String → Bool
organization_role_allows permission none = false
organization_role_allows permission (some role) =
    has (organization_role_permissions role) permission

-- The assignment is active, in this organization and scope, and its role has the permission.
abbrev pub applies : AuthorizationInput → OperationalRoleAssignment → Bool
applies input a =
    str_eq a.status "active"
    && str_eq a.organization_id input.organization_id
    && is_text input.authorization_scope_id a.authorization_scope_id
    && has (operational_role_permissions a.role) input.permission

unfoldable pub operational_role_allows : AuthorizationInput → List OperationalRoleAssignment → Bool
operational_role_allows input assignments =
    if is_none input.authorization_scope_id then false else any (applies input) assignments

unfoldable pub can : AuthorizationInput → AuthorizationSnapshot → Bool
can input snapshot =
    if not (is_known_permission input.permission)
      || not (has_valid_snapshot_vocabulary snapshot)
      || not (str_eq snapshot.membership_status "active")
      || not (str_eq input.actor_id snapshot.actor_id)
      || not (str_eq input.organization_id snapshot.organization_id)
    then false
    else if has organization_permission_set input.permission
    then if not (is_none input.authorization_scope_id)
      then false
      else if str_eq input.permission "organization:audit:self:read"
      then true
      else organization_role_allows input.permission snapshot.organization_role
    else if is_none input.authorization_scope_id
    then false
    else organization_role_allows input.permission snapshot.organization_role
      || operational_role_allows input snapshot.assignments
