-- ===== src/Guard/Contexts.antt =====
-- apps/api/src/authorization/permission.guard.ts: when the ids of the route and of the headers agree.
use tabela_pubg.Prelude.{
  ◌≡◌, refl, ap, ◌⊎◌, inl, inr, String, Bool, true, false, Option, none, some, arith, str_eq,
  eq_iff, eq_refl, starts_with, Bool-cases,
}
use tabela_pubg.Guard.{
  is_uuid, Request, first_header, is_missing, canonical_uuid, is_personal, fault_of,
}

abbrev pub IsPersonal : String → Type 0
IsPersonal permission =
    (permission ≡ "identity:session-alerts:resolve") ⊎ (permission ≡ "authenticated")

-- The route and the headers name the same scope, or none is named and none is needed.
abbrev pub ScopeAgrees : Request → String → Type 0
ScopeAgrees request permission =
    ((is_missing request.scope_param ≡ true) × (starts_with permission "tournament:" ≡ false))
    ⊎ ((scope : String) × (canonical_uuid request.scope_param ≡ some scope)
        × (canonical_uuid (first_header request.scope_header) ≡ some scope))

-- The ids of the organization agree, and so do those of the scope.
abbrev pub Agrees :
    (organization scope internal internal_scope : Option String) (has_scope requires : Bool)
    → Type 0
Agrees organization scope internal internal_scope has_scope requires =
    (id : String) × (organization ≡ some id)
    × (internal ≡ some id)
    × (((has_scope ≡ false) × (requires ≡ false))
        ⊎ ((s : String) × (scope ≡ some s) × (internal_scope ≡ some s)))

-- Without a fault they agree.
pub fault_of-none :
    (organization scope internal internal_scope : Option String)
    (has_scope has_internal requires : Bool)
    → fault_of organization scope internal internal_scope has_scope has_internal requires ≡ none
    → Agrees organization scope internal internal_scope has_scope requires
unfolding fault_of
fault_of-none none scope internal internal_scope has_scope has_internal requires e = absurd (cc)
fault_of-none (some o) none internal internal_scope true has_internal requires e = absurd (cc)
fault_of-none (some o) (some s) internal internal_scope has_scope false requires e =
    absurd (ground arith)
fault_of-none (some o) none internal internal_scope false false requires e = absurd (cc)
fault_of-none (some o) (some s) none internal_scope has_scope true requires e =
    absurd (ground arith)
fault_of-none (some o) none none internal_scope false true requires e = absurd (cc)
fault_of-none (some o) scope (some i) internal_scope false true true e = absurd (ground arith)
fault_of-none (some o) scope (some i) internal_scope false true false e =
    let same : i ≡ o = ground (arith, eq_iff i o) in (o, refl, ap some same, inl (refl, refl))
fault_of-none (some o) (some s) (some i) none true true requires e = absurd (ground arith)
fault_of-none (some o) (some s) (some i) (some t) true true requires e =
    let same : i ≡ o = ground (arith, eq_iff i o, eq_iff t s) in
    let same' : t ≡ s = ground (arith, eq_iff i o, eq_iff t s) in
    (o, refl, ap some same, inr (s, refl, ap some same'))

-- When they agree there is no fault.
pub none-fault_of :
    (organization scope internal internal_scope : Option String) (has_scope requires : Bool)
    → (requires ≡ true → has_scope ≡ true)
    → Agrees organization scope internal internal_scope has_scope requires
    → fault_of organization scope internal internal_scope has_scope true requires ≡ none
unfolding fault_of
none-fault_of organization scope internal internal_scope has_scope requires h
      (o, e, f, inl (x, y)) =
    rw (e, f, x, y) (ground (arith, eq_refl o))
none-fault_of organization scope internal internal_scope has_scope requires h
      (o, e, f, inr (s, x, y)) =
    rw (e, f, x, y) (ground (arith, eq_refl o, eq_refl s))

-- A text that is a UUID is not missing.
pub is_missing-canonical_uuid :
    (value : Option String) (id : String)
    → canonical_uuid value ≡ some id
    → is_missing value ≡ false
unfolding canonical_uuid is_missing
is_missing-canonical_uuid none id e = absurd (cc)
is_missing-canonical_uuid (some value) id e = elim (Bool-cases (str_eq value "")) [
  | inr n ↦ n
  | inl y ↦
      let same : value ≡ "" = (eq_iff value "").0 y in
      let no_uuid : is_uuid value ≡ false = rw same refl in absurd (cc (rw no_uuid at e))
]

pub IsPersonal-of : (permission : String) → is_personal permission ≡ true → IsPersonal permission
IsPersonal-of permission e = elim (Bool-cases (str_eq permission "authenticated")) [
  | inl y ↦ inr ((eq_iff permission "authenticated").0 y)
  | inr n ↦ inl ((eq_iff permission "identity:session-alerts:resolve").0 (ground (arith, n)))
]

pub of_IsPersonal : (permission : String) → IsPersonal permission → is_personal permission ≡ true
of_IsPersonal permission (inl e) = rw e refl
of_IsPersonal permission (inr e) = rw e refl
