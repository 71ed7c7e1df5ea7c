-- ===== src/Guard/Decisions.antt =====
-- Which requests the guard lets through, in words; and whom it lets into an organization.
use tabela_pubg.Prelude.{
  ◌≡◌, ◌≢◌, refl, ◌⊎◌, ◌↔◌, inl, inr, String, Bool, true, false, not, ◌&&◌, Option, none, some,
  arith, str_eq, eq_iff, starts_with, Result, ok, err, Bool-cases,
}
use tabela_pubg.Authorization.{AuthorizationInput}
use tabela_pubg.Guard.{
  DenialReason, Request, Route, AuthenticatedSession, allowed, first_header, is_missing,
  canonical_uuid, is_personal, context_fault, denial_of, untrusted, answer_of, after_context, enter,
  may_be_provisional, with_permission, with_session, can_activate,
}
use tabela_pubg.Guard.Contexts.{
  IsPersonal, ScopeAgrees, fault_of-none, none-fault_of, is_missing-canonical_uuid, IsPersonal-of,
  of_IsPersonal,
}

module _ (can : AuthorizationInput → Result Bool) (route : Route) (request : Request) where
  abbrev pub InOrganization : AuthenticatedSession → String → Type 0
  InOrganization auth permission =
      (organization_id : String) × (canonical_uuid request.organization_param
        ≡ some organization_id)
      × (canonical_uuid (first_header request.organization_header) ≡ some organization_id)
      × ScopeAgrees request permission
      × (IsPersonal permission
          ⊎ (can (record {
            actor_id = auth.actor_id;
            organization_id = organization_id;
            authorization_scope_id = canonical_uuid request.scope_param;
            permission = permission;
          })
              ≡ ok true))

  abbrev pub Trusted : AuthenticatedSession → String → Type 0
  Trusted auth permission =
      (auth.trust ≡ "trusted")
      ⊎ ((auth.trust ≡ "provisional")
          × (permission ≡ "authenticated")
          × (route.allow_provisional ≡ true))

  abbrev pub Entitled : Type 0
  Entitled =
      (auth : AuthenticatedSession) × (permission : String) × (request.auth ≡ some auth)
      × (route.permission ≡ some permission)
      × Trusted auth permission
      × (((is_missing request.organization_param ≡ true) × IsPersonal permission)
          ⊎ InOrganization auth permission)

  denied_apart :
      (auth : AuthenticatedSession) (permission : String) (reason : DenialReason)
      → denial_of request auth permission reason ≢ allowed
  unfolding denial_of
  denied_apart auth permission reason e = cc

  untrusted_apart : (auth : AuthenticatedSession) → untrusted request auth ≢ allowed
  unfolding untrusted
  untrusted_apart auth e = ground arith

  context_of :
      (permission : String)
      → context_fault request permission ≡ none
      → (id : String) × (canonical_uuid request.organization_param ≡ some id)
        × (canonical_uuid (first_header request.organization_header) ≡ some id)
        × ScopeAgrees request permission
  unfolding context_fault
  context_of permission e =
      let (id, o, i, s) = fault_of-none _ _ _ _ _ _ _ e in
      (
        id,
        o,
        i,
        elim s [ inl (absent, free) ↦ inl (ground (arith, absent), free) | inr named ↦ inr named ],
      )

  entered :
      (auth : AuthenticatedSession) (permission : String)
      → enter can request auth permission ≡ allowed
      → ((is_missing request.organization_param ≡ true) × IsPersonal permission)
        ⊎ InOrganization auth permission
  unfolding enter
  entered auth permission e = elim (Bool-cases (is_missing request.organization_param)) [
    | inl y ↦ elim (Bool-cases (is_personal permission)) [
      | inl p ↦ inl (y, IsPersonal-of permission p)
      | inr n ↦ absurd (denied_apart auth permission _ (rw (y, n) at e))
    ]
    | inr n ↦ inr (inside _ refl (rw n at e))
  ]
    where
      inside :
          (fault : Option DenialReason)
          → context_fault request permission ≡ fault
          → after_context can request auth permission fault ≡ allowed
          → InOrganization auth permission
      inside (some reason) f h = absurd (denied_apart auth permission reason h)
      inside none f h =
          let (id, o, i, s) = context_of permission f in
          elim (Bool-cases (is_personal permission)) [
            | inl p ↦ (id, o, i, s, inl (IsPersonal-of permission p))
            | inr n ↦ (id, o, i, s, inr (decided id o _ refl (rw (n, o) at h)))
          ]
        where
          decided :
              (id : String)
              → canonical_uuid request.organization_param ≡ some id
              → (answer : Result Bool)
              → can (record {
                actor_id = auth.actor_id;
                organization_id = id;
                authorization_scope_id = canonical_uuid request.scope_param;
                permission = permission;
              })
                ≡ answer
              → answer_of request auth permission answer ≡ allowed
              → can (record {
                actor_id = auth.actor_id;
                organization_id = id;
                authorization_scope_id = canonical_uuid request.scope_param;
                permission = permission;
              })
                ≡ ok true
          decided id o (err message) c k = absurd (cc)
          decided id o (ok true) c k = c
          decided id o (ok false) c k = absurd (denied_apart auth permission _ k)

  scope_free :
      (permission : String)
      → ScopeAgrees request permission
      → starts_with permission "tournament:" ≡ true
      → not (is_missing request.scope_param) ≡ true
  scope_free permission (inl (absent_, free)) e = cc
  scope_free permission (inr (scope, named, _)) e =
      rw (is_missing-canonical_uuid request.scope_param scope named) refl

  no_fault :
      (auth : AuthenticatedSession) (permission : String)
      → InOrganization auth permission
      → context_fault request permission ≡ none
  unfolding context_fault
  no_fault auth permission (id, o, i, s, _) =
      rw (is_missing-canonical_uuid (first_header request.organization_header) id i) (
        none-fault_of _ _ _ _ _ _ (scope_free permission s) (
          id,
          o,
          i,
          elim s [ inl (absent_, free) ↦ inl (rw absent_ refl, free) | inr named ↦ inr named ],
        ))

  enters :
      (auth : AuthenticatedSession) (permission : String)
      → ((is_missing request.organization_param ≡ true) × IsPersonal permission)
        ⊎ InOrganization auth permission
      → enter can request auth permission ≡ allowed
  unfolding enter
  enters auth permission (inl (absent_, personal)) =
      rw (absent_, of_IsPersonal permission personal) refl
  enters auth permission (inr inside) =
      let fault = no_fault auth permission inside in
      let (id, o, _, _, permitted) = inside in
      rw (is_missing-canonical_uuid request.organization_param id o, fault)
        (elim permitted [
          | inl personal ↦ rw (of_IsPersonal permission personal) refl
          | inr said ↦ elim (Bool-cases (is_personal permission)) [
            | inl p ↦ rw p refl
            | inr n ↦ rw (n, o, said) refl
          ]
        ])

  trust_of :
      (auth : AuthenticatedSession) (permission : String)
      → not (str_eq auth.trust "trusted") && not (may_be_provisional can route auth permission)
        ≡ false
      → Trusted auth permission
  trust_of auth permission e = elim (Bool-cases (str_eq auth.trust "trusted")) [
    | inl y ↦ inl ((eq_iff auth.trust "trusted").0 y)
    | inr n ↦ inr (
      (eq_iff auth.trust "provisional").0 (ground (arith, e, n)),
      (eq_iff permission "authenticated").0 (ground (arith, e, n)),
      ground (arith, e, n),
    )
  ]

  of_trust :
      (auth : AuthenticatedSession) (permission : String)
      → Trusted auth permission
      → not (str_eq auth.trust "trusted") && not (may_be_provisional can route auth permission)
        ≡ false
  of_trust auth permission (inl e) = rw e refl
  of_trust auth permission (inr (e, f, g)) = rw (e, f, g) refl

  -- A request reaches its route exactly when the route is public, or the caller has a session, the
  -- route declares a permission, the session is trusted (or provisional, where the route allows that
  -- and asks for nothing but a session), and either the route has no organization and the permission
  -- is a personal one, or the organization in the route and in the header are the same UUID, the
  -- scopes agree (and are there, for a permission on tournaments), and the permission is personal or
  -- the decision grants it.
  pub can_activate_iff :
      (can_activate can route request ≡ allowed) ↔ ((route.is_public ≡ true) ⊎ Entitled)
  unfolding can_activate
  can_activate_iff = (admits (route.is_public) refl, admitted)
    where
      admits :
          (b : Bool)
          → route.is_public ≡ b
          → can_activate can route request ≡ allowed
          → (route.is_public ≡ true) ⊎ Entitled
      admits true p e = inl p
      admits false p e = inr (session request.auth route.permission refl refl (rw p at e))
        where
          session :
              (a : Option AuthenticatedSession) (w : Option String)
              → request.auth ≡ a
              → route.permission ≡ w
              → with_session can route request a ≡ allowed
              → Entitled
          session none w k l h = absurd (cc)
          session (some auth) none k l h = absurd (untrusted_apart auth (rw l at h))
          session (some auth) (some permission) k l h = trust _ refl (rw l at h)
            where
              trust :
                  (b : Bool)
                  → not (str_eq auth.trust "trusted")
                      && not (may_be_provisional can route auth permission)
                    ≡ b
                  → with_permission can route request auth (some permission) ≡ allowed
                  → Entitled
              trust true m g = absurd (untrusted_apart auth (rw m at g))
              trust false m g = (
                auth,
                permission,
                k,
                l,
                trust_of auth permission m,
                entered auth permission (rw m at g),
              )

      admitted : (route.is_public ≡ true) ⊎ Entitled → can_activate can route request ≡ allowed
      admitted (inl p) = rw p refl
      admitted (inr (auth, permission, k, l, t, inside)) = elim (Bool-cases route.is_public) [
        | inl p ↦ rw p refl
        | inr p ↦ rw (p, k, l, of_trust auth permission t) (enters auth permission inside)
      ]
