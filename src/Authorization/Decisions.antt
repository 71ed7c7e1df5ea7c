-- ===== src/Authorization/Decisions.antt =====
-- `can` against a description by predicates: eligibility and the organization roles are written out,
-- the table of the operational roles is the code's.
use tabela_pubg.Prelude.{
  All, ◌≡◌, ◌≢◌, refl, ◌↔◌, ◌⊎◌, inl, inr, String, Bool, true, false, not, ◌&&◌, Option, none, some,
  List, [], ◌∷◌, any, all, select, is_text, str_eq, starts_with, eq_iff, arith, Bool-cases,
}
use mathlib.Core.List.{Memᴰ}
use mathlib.Core.Path.{sym}
use tabela_pubg.Authorization.{
  operational_roles, authorization_statuses, is_known_assignment, has, all_permissions,
  AuthorizationInput, OperationalRoleAssignment, AuthorizationSnapshot, permission_set,
  organization_permission_set, organization_roles, owner_permissions, admin_permissions,
  organization_role_permissions, operational_role_permissions, is_known_permission,
  is_known_organization_role, has_valid_snapshot_vocabulary, organization_role_allows, applies,
  operational_role_allows, can,
}

has-select :
    (q : String → Bool) (xs : List String) (x : String) → has (select q xs) x ≡ (has xs x && q x)
has-select q [] x = refl
has-select q (y ∷ ys) x = ground (arith, eq_iff y x, has-select q ys x)

-- The organization role of the matrix: an owner may do everything, an admin all but hand over
-- ownership.
abbrev pub RoleGrants : Option String → String → Type 0
RoleGrants role permission =
    (role ≡ some "owner")
    ⊎ ((role ≡ some "admin") × (permission ≢ "organization:ownership:transfer"))

-- Some assignment in the list applies.
pub data Assigned (input : AuthorizationInput) : List OperationalRoleAssignment → Type 0 where
  here :
      {a : OperationalRoleAssignment} {as' : List OperationalRoleAssignment}
      → a.status ≡ "active"
      → a.organization_id ≡ input.organization_id
      → input.authorization_scope_id ≡ some a.authorization_scope_id
      → has (operational_role_permissions a.role) input.permission ≡ true
      → Assigned input (a ∷ as')
  there :
      {a : OperationalRoleAssignment} {as' : List OperationalRoleAssignment}
      → Assigned input as'
      → Assigned input (a ∷ as')

has-organization_permission_set :
    (p : String)
    → has organization_permission_set p ≡ (is_known_permission p && starts_with p "organization:")
unfolding organization_permission_set is_known_permission permission_set
has-organization_permission_set p =
    has-select (λ q. starts_with q "organization:") all_permissions p

has-admin_permissions :
    (p : String)
    → has admin_permissions p
      ≡ (is_known_permission p && not (str_eq p "organization:ownership:transfer"))
unfolding admin_permissions is_known_permission permission_set
has-admin_permissions p =
    has-select (λ q. not (str_eq q "organization:ownership:transfer")) all_permissions p

has-owner_permissions : (p : String) → has owner_permissions p ≡ is_known_permission p
unfolding owner_permissions is_known_permission permission_set
has-owner_permissions p = refl

organization_role_allows_iff :
    (p : String) (role : Option String)
    → is_known_permission p ≡ true
    → (organization_role_allows p role ≡ true) ↔ RoleGrants role p
unfolding organization_role_allows organization_role_permissions
organization_role_allows_iff p none known = (λ h. cc, λ h. ground arith)
organization_role_allows_iff p (some role) known = (
  λ h. ground (
    arith,
    eq_iff role "owner",
    eq_iff role "admin",
    has-owner_permissions p,
    has-admin_permissions p,
    eq_iff p "organization:ownership:transfer",
  ),
  λ h. ground (
    arith,
    eq_iff role "owner",
    eq_iff role "admin",
    eq_iff "admin" "owner",
    has-owner_permissions p,
    has-admin_permissions p,
    eq_iff p "organization:ownership:transfer",
  ),
)

applies-Assigned :
    (input : AuthorizationInput) (a : OperationalRoleAssignment)
    (rest : List OperationalRoleAssignment)
    → applies input a ≡ true
    → Assigned input (a ∷ rest)
applies-Assigned input a rest h =
    here (ground (arith, eq_iff a.status "active"))
      (ground (arith, eq_iff a.organization_id input.organization_id))
      (scope input.authorization_scope_id h) (ground arith)
  where
    scope :
        (o : Option String)
        → (str_eq a.status "active"
            && str_eq a.organization_id input.organization_id
            && is_text o a.authorization_scope_id
            && has (operational_role_permissions a.role) input.permission)
          ≡ true
        → o ≡ some a.authorization_scope_id
    scope none e = ground arith
    scope (some s) e = ground (arith, eq_iff s a.authorization_scope_id)

any-Assigned :
    (input : AuthorizationInput) (as' : List OperationalRoleAssignment)
    → any (applies input) as' ≡ true
    → Assigned input as'
any-Assigned input [] h = absurd (cc)
any-Assigned input (a ∷ rest) h = elim (Bool-cases (applies input a)) [
  | inl e ↦ applies-Assigned input a rest e
  | inr e ↦ there (any-Assigned input rest (ground arith))
]

Assigned-any :
    {input : AuthorizationInput} {as' : List OperationalRoleAssignment}
    → Assigned input as'
    → any (applies input) as' ≡ true
Assigned-any {input} (here {a = a} e f g h) = ground (
  arith,
  eq_iff a.status "active",
  eq_iff a.organization_id input.organization_id,
  eq_iff a.authorization_scope_id a.authorization_scope_id,
)
Assigned-any {input} (there {a = a} h) = ground (arith, Assigned-any h)

Assigned-scope :
    {input : AuthorizationInput} {as' : List OperationalRoleAssignment}
    → Assigned input as'
    → input.authorization_scope_id ≢ none
Assigned-scope (here e f g h) n = cc
Assigned-scope (there h) n = Assigned-scope h n

operational_role_allows_iff :
    (input : AuthorizationInput) (as' : List OperationalRoleAssignment)
    → (operational_role_allows input as' ≡ true) ↔ Assigned input as'
unfolding operational_role_allows
operational_role_allows_iff input as' = (
  λ h. any-Assigned input as' (ground arith),
  λ h. ground (arith, Assigned-any h, Assigned-scope h),
)

pub has-Memᴰ : (xs : List String) (x : String) → has xs x ≡ true → Memᴰ x xs
has-Memᴰ [] x h = absurd (cc)
has-Memᴰ (y ∷ ys) x h = elim (Bool-cases (str_eq y x)) [
  | inl e ↦ Memᴰ.head (sym ((eq_iff y x).0 e))
  | inr e ↦ Memᴰ.tail (has-Memᴰ ys x (ground arith))
]

pub Memᴰ-has : {x : String} {xs : List String} → Memᴰ x xs → has xs x ≡ true
Memᴰ-has {x = x} (Memᴰ.head {x = y} e) = ground (arith, eq_iff y x)
Memᴰ-has (Memᴰ.tail m) = ground (arith, Memᴰ-has m)

abbrev pub KnownRole : Option String → Type 0
KnownRole none = Unit {0}
KnownRole (some role) = Memᴰ role organization_roles

-- A snapshot in the vocabulary of the package.
abbrev pub IsKnownSnapshot : AuthorizationSnapshot → Type 0
IsKnownSnapshot s =
    Memᴰ s.membership_status authorization_statuses
    × KnownRole s.organization_role
    × All (λ a. Memᴰ a.role operational_roles × Memᴰ a.status authorization_statuses) s.assignments

all-is_known_assignment_iff :
    (as' : List OperationalRoleAssignment)
    → (all is_known_assignment as' ≡ true)
      ↔ All (λ a. Memᴰ a.role operational_roles × Memᴰ a.status authorization_statuses) as'
all-is_known_assignment_iff [] = (λ _. tt, λ _. refl)
all-is_known_assignment_iff (a ∷ rest) = (
  λ h. (
    (
      has-Memᴰ operational_roles a.role (ground arith),
      has-Memᴰ authorization_statuses a.status (ground arith),
    ),
    (all-is_known_assignment_iff rest).0 (ground arith),
  ),
  λ h. ground (arith, Memᴰ-has h.0.0, Memᴰ-has h.0.1, (all-is_known_assignment_iff rest).1 h.1),
)

KnownRole-iff : (role : Option String) → (is_known_organization_role role ≡ true) ↔ KnownRole role
unfolding is_known_organization_role
KnownRole-iff none = (λ h. tt, λ h. refl)
KnownRole-iff (some role) = (has-Memᴰ organization_roles role, Memᴰ-has)

has_valid_snapshot_vocabulary_iff :
    (s : AuthorizationSnapshot) → (has_valid_snapshot_vocabulary s ≡ true) ↔ IsKnownSnapshot s
unfolding has_valid_snapshot_vocabulary
has_valid_snapshot_vocabulary_iff s = (
  λ h. (
    has-Memᴰ authorization_statuses s.membership_status (ground arith),
    (KnownRole-iff s.organization_role).0 (ground arith),
    (all-is_known_assignment_iff s.assignments).0 (ground arith),
  ),
  λ h. ground (
    arith,
    Memᴰ-has h.0,
    (KnownRole-iff s.organization_role).1 h.1,
    (all-is_known_assignment_iff s.assignments).1 h.2,
  ),
)

-- The request and the snapshot speak of the same actor and organization, in known words, and the
-- membership is active.
abbrev pub IsEligible : AuthorizationInput → AuthorizationSnapshot → Type 0
IsEligible input s =
    Memᴰ input.permission all_permissions
    × IsKnownSnapshot s
    × (s.membership_status ≡ "active")
    × (input.actor_id ≡ s.actor_id)
    × (input.organization_id ≡ s.organization_id)

-- What an eligible request needs: an organization permission is asked for without a scope, and is
-- the member's own audit trail or one that the organization role grants; any other is asked for in
-- a scope, and is granted by the organization role or by an assignment that applies.
abbrev pub IsGranted : AuthorizationInput → AuthorizationSnapshot → Type 0
IsGranted input s =
    ((starts_with input.permission "organization:" ≡ true)
      × (input.authorization_scope_id ≡ none)
      × ((input.permission ≡ "organization:audit:self:read")
          ⊎ RoleGrants s.organization_role input.permission))
    ⊎ ((starts_with input.permission "organization:" ≡ false)
        × (input.authorization_scope_id ≢ none)
        × (RoleGrants s.organization_role input.permission ⊎ Assigned input s.assignments))

is_known_permission_iff : (p : String) → (is_known_permission p ≡ true) ↔ Memᴰ p all_permissions
unfolding is_known_permission permission_set
is_known_permission_iff p = (has-Memᴰ all_permissions p, Memᴰ-has)

IsEligible-of_can :
    (input : AuthorizationInput) (s : AuthorizationSnapshot)
    → can input s ≡ true
    → IsEligible input s
unfolding can
IsEligible-of_can input s h = (
  (is_known_permission_iff input.permission).0 (ground arith),
  (has_valid_snapshot_vocabulary_iff s).0 (ground arith),
  ground (arith, eq_iff s.membership_status "active"),
  ground (arith, eq_iff input.actor_id s.actor_id),
  ground (arith, eq_iff input.organization_id s.organization_id),
)

IsGranted-of_can :
    (input : AuthorizationInput) (s : AuthorizationSnapshot)
    → can input s ≡ true
    → IsGranted input s
unfolding can
IsGranted-of_can input s h =
    let known : is_known_permission input.permission ≡ true = ground arith in
    ground (
      arith,
      has-organization_permission_set input.permission,
      eq_iff input.permission "organization:audit:self:read",
      (organization_role_allows_iff input.permission s.organization_role known).0,
      (operational_role_allows_iff input s.assignments).0,
    )

can_of_granted :
    (input : AuthorizationInput) (s : AuthorizationSnapshot)
    → IsEligible input s
    → IsGranted input s
    → can input s ≡ true
unfolding can
can_of_granted input s e g =
    let known = (is_known_permission_iff input.permission).1 e.0 in
    ground (
      arith,
      known,
      (has_valid_snapshot_vocabulary_iff s).1 e.1,
      eq_iff s.membership_status "active",
      eq_iff input.actor_id s.actor_id,
      eq_iff input.organization_id s.organization_id,
      has-organization_permission_set input.permission,
      eq_iff input.permission "organization:audit:self:read",
      (organization_role_allows_iff input.permission s.organization_role known).1,
      (operational_role_allows_iff input s.assignments).1,
    )

-- `can` answers true exactly when the request is eligible (known words, same actor, same
-- organization, active membership) and the permission matrix grants it, for every request and
-- snapshot, unknown words included.
pub can_iff :
    (input : AuthorizationInput) (s : AuthorizationSnapshot)
    → (can input s ≡ true) ↔ (IsEligible input s × IsGranted input s)
can_iff input s = (
  λ h. (IsEligible-of_can input s h, IsGranted-of_can input s h),
  λ (e, g). can_of_granted input s e g,
)
