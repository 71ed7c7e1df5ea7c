-- ===== src/Organizations/Tests.antt =====
-- The audit log at a small organization.
use mathlib.Core.List.{Memᴰ}
use tabela_pubg.Prelude.{◌≡◌, ◌↔◌, refl, none, some, [], ◌∷◌, find, ok}
use tabela_pubg.Organizations.{
  member, active, MembershipRow, AuditEventRow, Tables, is_sensitive_field, has_at_sign,
  sanitize_snapshot, append_audit_event, is_member, insert_newest, newest_first, list_visible,
}
use tabela_pubg.Organizations.Visibility.{Sees, list_visible_iff}

running : Unit {0}
unfolding is_sensitive_field has_at_sign sanitize_snapshot append_audit_event is_member
    insert_newest newest_first list_visible
running = tt

abbrev event : AuditEventRow
event = record {
  id = "a1";
  organization_id = "o1";
  authorization_scope_id = none;
  actor_membership_id = "m1";
  action = "membership.revoked";
  target_type = "organization-membership";
  target_id = "m2";
  reason = "season end";
  before =
      some (("role", some "admin") ∷ ("SessionToken", some "x") ∷ ("contact", some "a@b") ∷ []);
  after = none;
  correlation_id = "x1";
  causation_id = none;
  occurred_at = 1000;
}

-- A secret and an address are left out of the log.
append_run :
    append_audit_event [] event
    ≡ ok (record event { before = some (("role", some "admin") ∷ []) } ∷ [])
unfolding running
append_run = refl

abbrev viewer : MembershipRow
viewer = record {
  id = "m2";
  organization_id = "o1";
  user_id = "u2";
  role = member;
  status = active;
  joined_at = 0;
  revoked_at = none;
  revocation_reason = none;
  updated_at = 0;
}

abbrev log : Tables
log = record {
  organizations = "o1" ∷ [];
  memberships = viewer ∷ [];
  scopes = [];
  assignments = [];
  audit_events = event ∷ [];
  outbox_events = [];
}

-- A plain member does not see what another one did.
list_visible_run : list_visible log "o1" "m2" ≡ []
unfolding running
list_visible_run = refl

list_visible_iff_example : Memᴰ event (list_visible log "o1" "m2") ↔ (
    (v : MembershipRow) × (find (is_member "o1" "m2") log.memberships ≡ some v)
    × Memᴰ event log.audit_events
    × Sees "o1" v event)
list_visible_iff_example = list_visible_iff log "o1" "m2" event
