-- ===== src/Guard/Members.antt =====
-- The guard over the tables of the database: whom it lets act in an organization.
use tabela_pubg.Prelude.{◌≡◌, sym, ◌∙◌, ap, inl, inr, String, Bool, true, false, some, ok, Result}
use tabela_pubg.Organizations.{Tables}
use tabela_pubg.Access.{may}
use tabela_pubg.Access.Decisions.{HasAccess, may-HasAccess}
use tabela_pubg.Guard.{
  Request, Route, AuthenticatedSession, allowed, first_header, canonical_uuid, is_personal,
  can_activate,
}
use tabela_pubg.Guard.Contexts.{IsPersonal, of_IsPersonal}
use tabela_pubg.Guard.Decisions.{can_activate_iff}

-- A caller with a trusted session who is an active member of the organization that the route and
-- the header name.
pub record Member (t : Tables) (request : Request) : Type 0 where
  pub auth : AuthenticatedSession
  pub signed_in : request.auth ≡ some auth
  pub trusted : auth.trust ≡ "trusted"
  pub organization_id : String
  pub routed : canonical_uuid request.organization_param ≡ some organization_id
  pub headed : canonical_uuid (first_header request.organization_header) ≡ some organization_id
  pub belongs : HasAccess t organization_id auth.actor_id

-- Where a route asks for a permission that is no personal one, the guard over the tables lets through
-- only callers with a trusted session who are active members of the organization that both the
-- route and the header name. The route is not public.
pub can_activate-Member :
    (t : Tables) (route : Route) (request : Request) (permission : String)
    → route.is_public ≡ false
    → route.permission ≡ some permission
    → is_personal permission ≡ false
    → can_activate (λ input. ok (may t input)) route request ≡ allowed
    → Member t request
can_activate-Member t route request permission closed asked apart e =
    elim ((can_activate_iff (λ input. ok (may t input)) route request).0 e) [
      | inl p ↦ absurd (cc)
      | inr (auth, wanted, k, l, trust, inside) ↦
          let same : wanted ≡ permission = cc in
          let impersonal = λ (p : IsPersonal wanted). personal wanted same p in
          elim inside [
            | inl (_, p) ↦ absurd (cc (impersonal p))
            | inr (id, o, i, _, permitted) ↦ record {
              auth = auth;
              signed_in = k;
              trusted = elim trust [
                | inl y ↦ y
                | inr (_, plain, _) ↦ absurd (cc (impersonal (inr plain)))
              ];
              organization_id = id;
              routed = o;
              headed = i;
              belongs = elim permitted [
                | inl p ↦ absurd (cc (impersonal p))
                | inr said ↦ may-HasAccess t _ (granted _ said)
              ];
            }
          ]
    ]
  where
    personal : (wanted : String) → wanted ≡ permission → IsPersonal wanted → false ≡ true
    personal wanted same p = sym apart ∙ ap is_personal (sym same) ∙ of_IsPersonal wanted p

    granted : (b : Bool) → ◌≡◌ {A = Result Bool} (ok b) (ok true) → b ≡ true
    granted b h = cc
