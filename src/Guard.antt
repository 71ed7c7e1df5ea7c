-- ===== src/Guard.antt =====
-- apps/api/src/authorization/permission.guard.ts: whether a request may reach its route. The metadata
-- of a route, the session of the caller and the decision of `AuthorizationService.can` are arguments;
-- a recorder that throws is ignored, so what is recorded is part of the outcome.
pub mod Contexts
pub mod Decisions
pub mod Members
pub mod Tests
use tabela_pubg.Prelude.{
  ℕ, String, Bool, true, false, not, ◌&&◌, ◌||◌, Option, none, some, List, [], ◌∷◌, all, leb, ◌==◌,
  if◌then◌else◌, str_eq, is_some, is_none, starts_with, codes, Result, ok, err,
}
use Prim.Native.Char.{Char, code}
use tabela_pubg.Authorization.{AuthorizationInput}

pub data DenialReason : Type 0 where
  missing_route_context invalid_route_context missing_internal_context invalid_internal_context
        organization_context_mismatch scope_context_mismatch permission_denied :
      DenialReason

pub record AuthenticatedSession : Type 0 where
  pub actor_id : String
  pub session_id : String
  pub trust : String

pub record DenialRecord : Type 0 where
  pub reason : DenialReason
  pub correlation_id : String
  pub actor_id : String
  pub session_id : String
  pub route_organization_id : Option String
  pub route_authorization_scope_id : Option String
  pub permission : String

-- What a refusal tells the recorders.
pub data Report : Type 0 where
  nothing : Report
  denial : (event : DenialRecord) → Report
  provisional_denied : (correlation_id actor_id session_id : String) → Report

pub data Outcome : Type 0 where
  allowed : Outcome
  forbidden : (report : Report) → Outcome
  failed : (message : String) → Outcome

-- A header may be missing, one text or several.
pub data Header : Type 0 where
  absent : Header
  single : (value : String) → Header
  several : (values : List String) → Header

-- A permission is never empty.
pub record Route : Type 0 where
  pub is_public : Bool
  pub permission : Option String
  pub allow_provisional : Bool

-- A route parameter that is no text counts as missing.
pub record Request : Type 0 where
  pub auth : Option AuthenticatedSession
  pub organization_param : Option String
  pub scope_param : Option String
  pub organization_header : Header
  pub scope_header : Header
  pub correlation_header : Header

abbrev pub first_header : Header → Option String
first_header absent = none
first_header (single value) = some value
first_header (several []) = none
first_header (several (value ∷ values)) = some value

-- `!value`
unfoldable pub is_missing : Option String → Bool
is_missing none = true
is_missing (some value) = str_eq value ""

-- The pattern's `i` flag takes both cases.
unfoldable pub is_hex : ℕ → Bool
is_hex c = (leb b'0' c && leb c b'9') || (leb b'a' c && leb c b'f') || (leb b'A' c && leb c b'F')

unfoldable pub is_version : ℕ → Bool
is_version c = leb b'1' c && leb c b'8'

unfoldable pub is_variant : ℕ → Bool
is_variant c = c == b'8' || c == b'9' || c == b'a' || c == b'b' || c == b'A' || c == b'B'

-- One test for each place of the text.
unfoldable pub matches : List (ℕ → Bool) → List ℕ → Bool
matches [] [] = true
matches (p ∷ ps) (c ∷ cs) = p c && matches ps cs
matches _ _ = false

abbrev pub is_dash : ℕ → Bool
is_dash c = c == b'-'

abbrev pub uuid_pattern : List (ℕ → Bool)
uuid_pattern =
    is_hex ∷ is_hex ∷ is_hex ∷ is_hex ∷ is_hex ∷ is_hex ∷ is_hex ∷ is_hex ∷ is_dash ∷ is_hex
    ∷ is_hex ∷ is_hex ∷ is_hex ∷ is_dash ∷ is_version ∷ is_hex ∷ is_hex ∷ is_hex ∷ is_dash
    ∷ is_variant ∷ is_hex ∷ is_hex ∷ is_hex ∷ is_dash ∷ is_hex ∷ is_hex ∷ is_hex ∷ is_hex ∷ is_hex
    ∷ is_hex ∷ is_hex ∷ is_hex ∷ is_hex ∷ is_hex ∷ is_hex ∷ is_hex ∷ []

unfoldable pub is_uuid : String → Bool
unfolding matches is_hex is_version is_variant
is_uuid value = matches uuid_pattern (codes value)

-- `toLowerCase`, on the characters of a UUID
unfoldable pub lower_hex : Char → Char
lower_hex c =
    if code c == b'A'
    then "a"
    else if code c == b'B'
    then "b"
    else if code c == b'C'
    then "c"
    else if code c == b'D'
    then "d"
    else if code c == b'E'
    then "e"
    else if code c == b'F'
    then "f"
    else c

unfoldable pub lower_uuid : String → String
unfolding lower_hex
lower_uuid String.[] = String.[]
lower_uuid (String.◌∷◌ c text) = String.◌∷◌ (lower_hex c) (lower_uuid text)

unfoldable pub canonical_uuid : Option String → Option String
unfolding is_uuid lower_uuid
canonical_uuid none = none
canonical_uuid (some value) = if is_uuid value then some (lower_uuid value) else none

unfoldable pub correlation_id : Option String → String
unfolding is_uuid
correlation_id none = "unavailable"
correlation_id (some value) = if is_uuid value then value else "unavailable"

-- The permissions that need no organization.
abbrev pub is_personal : String → Bool
is_personal permission =
    str_eq permission "identity:session-alerts:resolve" || str_eq permission "authenticated"

-- Two canonical ids, of which the second is there.
abbrev pub same_id : Option String → String → Bool
same_id none id = false
same_id (some other) id = str_eq id other

abbrev pub same_ids : Option String → Option String → Bool
same_ids none other = false
same_ids (some id) other = same_id other id

abbrev pub scope_fault : Option String → Option String → Option DenialReason
scope_fault scope none = some missing_internal_context
scope_fault scope (some internal) =
    if same_id scope internal then none else some scope_context_mismatch

-- The checks between the organization in the route and the decision, in their order, on the
-- canonical ids of the route and the headers.
unfoldable pub fault_of :
    (organization_id scope_id internal internal_scope : Option String)
    → (has_scope has_internal requires_scope : Bool) → Option DenialReason
fault_of organization_id scope_id internal internal_scope has_scope has_internal requires_scope =
    if is_none organization_id || (has_scope && is_none scope_id)
    then some invalid_route_context
    else if not has_internal
    then some missing_internal_context
    else if is_none internal
    then some invalid_internal_context
    else if not (same_ids internal organization_id)
    then some organization_context_mismatch
    else if requires_scope && not has_scope
    then some missing_route_context
    else if has_scope || requires_scope
    then scope_fault scope_id internal_scope
    else none

unfoldable pub context_fault : Request → String → Option DenialReason
unfolding is_missing canonical_uuid fault_of
context_fault request permission =
    fault_of (canonical_uuid request.organization_param) (canonical_uuid request.scope_param)
      (canonical_uuid (first_header request.organization_header))
      (canonical_uuid (first_header request.scope_header)) (not (is_missing request.scope_param))
      (not (is_missing (first_header request.organization_header)))
      (starts_with permission "tournament:")

unfoldable pub denial_of : Request → AuthenticatedSession → String → DenialReason → Outcome
unfolding canonical_uuid correlation_id
denial_of request auth permission reason = forbidden (
    denial (record {
      reason = reason;
      correlation_id = correlation_id (first_header request.correlation_header);
      actor_id = auth.actor_id;
      session_id = auth.session_id;
      route_organization_id = canonical_uuid request.organization_param;
      route_authorization_scope_id = canonical_uuid request.scope_param;
      permission = permission;
    }))

unfoldable pub untrusted : Request → AuthenticatedSession → Outcome
unfolding correlation_id
untrusted request auth =
    if str_eq auth.trust "provisional"
    then forbidden (
        provisional_denied (correlation_id (first_header request.correlation_header)) auth.actor_id
          auth.session_id)
    else forbidden nothing

abbrev pub answer_of : Request → AuthenticatedSession → String → Result Bool → Outcome
answer_of request auth permission (err message) = failed message
answer_of request auth permission (ok true) = allowed
answer_of request auth permission (ok false) = denial_of request auth permission permission_denied

module _ (can : AuthorizationInput → Result Bool) where
  -- With a canonical organization, of which `context_fault` has made sure.
  abbrev pub decide : Request → AuthenticatedSession → String → Option String → Outcome
  decide request auth permission none =
      denial_of request auth permission DenialReason.invalid_route_context
  decide request auth permission (some organization_id) = answer_of request auth permission (
      can (record {
        actor_id = auth.actor_id;
        organization_id = organization_id;
        authorization_scope_id = canonical_uuid request.scope_param;
        permission = permission;
      }))

  abbrev pub after_context : Request → AuthenticatedSession → String → Option DenialReason → Outcome
  after_context request auth permission (some reason) = denial_of request auth permission reason
  after_context request auth permission none =
      if is_personal permission
      then allowed
      else decide request auth permission (canonical_uuid request.organization_param)

  unfoldable pub enter : Request → AuthenticatedSession → String → Outcome
  unfolding is_missing context_fault denial_of
  enter request auth permission =
      if is_missing request.organization_param
      then if is_personal permission
        then allowed
        else denial_of request auth permission missing_route_context
      else after_context request auth permission (context_fault request permission)

  abbrev pub may_be_provisional : Route → AuthenticatedSession → String → Bool
  may_be_provisional route auth permission =
      str_eq auth.trust "provisional"
      && str_eq permission "authenticated"
      && route.allow_provisional

  abbrev pub with_permission : Route → Request → AuthenticatedSession → Option String → Outcome
  with_permission route request auth none = untrusted request auth
  with_permission route request auth (some permission) =
      if not (str_eq auth.trust "trusted") && not (may_be_provisional route auth permission)
      then untrusted request auth
      else enter request auth permission

  abbrev pub with_session : Route → Request → Option AuthenticatedSession → Outcome
  with_session route request none = forbidden nothing
  with_session route request (some auth) = with_permission route request auth route.permission

  unfoldable pub can_activate : Route → Request → Outcome
  unfolding enter untrusted
  can_activate route request =
      if route.is_public then allowed else with_session route request request.auth
