-- ===== src/Authorization/Isolation.antt =====
-- What a decision of `can` does not depend on, and how the roles compare.
use mathlib.Core.List.{Memᴰ}
use tabela_pubg.Prelude.{
  ◌≡◌, ◌≢◌, refl, inl, inr, String, Bool, true, false, not, ◌&&◌, ◌||◌, some, List, [], ◌∷◌, any,
  all, select, is_text, str_eq, eq_iff, arith, Bool-cases, All-Memᴰ,
}
use tabela_pubg.Authorization.{
  has, AuthorizationInput, OperationalRoleAssignment, AuthorizationSnapshot, organization_roles,
  operational_roles, operational_role_permissions, is_known_assignment,
  has_valid_snapshot_vocabulary, applies, operational_role_allows, can,
}
use tabela_pubg.Authorization.Decisions.{has-Memᴰ, Memᴰ-has, can_iff, IsGranted}

-- The assignment is active and belongs to the organization and the scope of the request.
abbrev pub is_relevant : AuthorizationInput → OperationalRoleAssignment → Bool
is_relevant input a =
    str_eq a.status "active"
    && str_eq a.organization_id input.organization_id
    && is_text input.authorization_scope_id a.authorization_scope_id

any-applies-select :
    (input : AuthorizationInput) (as' : List OperationalRoleAssignment)
    → any (applies input) (select (is_relevant input) as') ≡ any (applies input) as'
any-applies-select input [] = refl
any-applies-select input (a ∷ rest) = ground (arith, any-applies-select input rest)

all-select :
    (q p : OperationalRoleAssignment → Bool) (as' : List OperationalRoleAssignment)
    → all p as' ≡ true
    → all p (select q as') ≡ true
all-select q p [] h = refl
all-select q p (a ∷ rest) h = ground (arith, all-select q p rest)

abbrev pub keep_relevant : AuthorizationInput → AuthorizationSnapshot → AuthorizationSnapshot
keep_relevant input s = record s { assignments = select (is_relevant input) s.assignments }

-- Revoked assignments and those of other organizations or scopes never change a decision, for a
-- snapshot in the known vocabulary.
pub can-keep_relevant :
    (input : AuthorizationInput) (s : AuthorizationSnapshot)
    → has_valid_snapshot_vocabulary s ≡ true
    → can input (keep_relevant input s) ≡ can input s
unfolding can has_valid_snapshot_vocabulary operational_role_allows
can-keep_relevant input s h = ground (
  arith,
  any-applies-select input s.assignments,
  all-select (is_relevant input) is_known_assignment s.assignments,
)

owner_role : has organization_roles "owner" ≡ true
unfolding organization_roles
owner_role = refl

-- Making the member an owner never takes a permission away.
pub can-owner :
    (input : AuthorizationInput) (s : AuthorizationSnapshot)
    → can input s ≡ true
    → can input (record s { organization_role = some "owner" }) ≡ true
can-owner input s h =
    let (e, g) = (can_iff input s).0 h in
    (can_iff input (record s { organization_role = some "owner" })).1 (
      (e.0, (e.1.0, has-Memᴰ organization_roles "owner" owner_role, e.1.2), e.2, e.3, e.4),
      granted g,
    )
  where
    granted : IsGranted input s → IsGranted input (record s { organization_role = some "owner" })
    granted (inl (o, n, inl self)) = inl (o, n, inl self)
    granted (inl (o, n, inr role)) = inl (o, n, inr (inl refl))
    granted (inr (o, n, d)) = inr (o, n, inl (inl refl))

-- One assignment outside the vocabulary makes every decision on the snapshot a refusal.
pub can_unknown_assignment :
    (input : AuthorizationInput) (s : AuthorizationSnapshot) (a : OperationalRoleAssignment)
    → ¬ (Memᴰ a.role operational_roles)
    → Memᴰ a s.assignments
    → can input s ≡ false
can_unknown_assignment input s a unknown m = elim (Bool-cases (can input s)) [
  | inl e ↦ absurd (unknown (All-Memᴰ _ m ((can_iff input s).0 e).0.1.2).0)
  | inr e ↦ e
]

-- The permissions that only look.
abbrev pub read_permissions : List String
read_permissions =
    "organization:audit:self:read" ∷ "tournament:competition:read" ∷ "tournament:registrations:read"
    ∷ "tournament:broadcast:read" ∷ "tournament:statistics:read" ∷ []

all-has :
    (p : String → Bool) (xs : List String) (x : String)
    → all p xs ≡ true
    → has xs x ≡ true
    → p x ≡ true
all-has p [] x h m = absurd (cc)
all-has p (y ∷ ys) x h m = elim (Bool-cases (str_eq y x)) [
  | inl e ↦ rw (← (eq_iff y x).0 e) (ground arith)
  | inr e ↦ all-has p ys x (ground arith) (ground arith)
]

-- Two roles are the same, or whatever the first may do and the second too is only reading.
abbrev apart : String → String → Bool
apart r t =
    str_eq r t
    || all (λ p. not (has (operational_role_permissions t) p) || has read_permissions p)
        (operational_role_permissions r)

roles_apart : all (λ r. all (apart r) operational_roles) operational_roles ≡ true
unfolding operational_roles operational_role_permissions
roles_apart = refl

-- Separation of duties: what two different operational roles may both do is only reading.
pub operational_roles_apart :
    (r t p : String)
    → Memᴰ r operational_roles
    → Memᴰ t operational_roles
    → r ≢ t
    → has (operational_role_permissions r) p ≡ true
    → has (operational_role_permissions t) p ≡ true
    → Memᴰ p read_permissions
operational_roles_apart r t p hr ht different pr pt =
    let one =
      all-has (λ x. all (apart x) operational_roles) operational_roles r roles_apart
        (Memᴰ-has hr) in
    let two = all-has (apart r) operational_roles t one (Memᴰ-has ht) in
    has-Memᴰ read_permissions p (shared (str_eq r t) refl two)
  where
    shared : (b : Bool) → str_eq r t ≡ b → apart r t ≡ true → has read_permissions p ≡ true
    shared true e h = absurd (different ((eq_iff r t).0 e))
    shared false e h =
        let third =
          all-has (λ x. not (has (operational_role_permissions t) x) || has read_permissions x)
            (operational_role_permissions r) p (ground arith) pr in
        ground arith
