-- ===== src/Members/Outcomes.antt =====
-- What a request on members that answers has found and done.
use tabela_pubg.Prelude.{
  bound, ℕ, ◌≡◌, refl, sym, ap, ◌∙◌, ◌⊎◌, inl, inr, String, Bool, true, false, not, ◌&&◌, ◌||◌,
  Option, none, some, List, [], update, find, count, length, arith, ok, if◌then◌else◌, Bool-cases,
  leb, ◌==◌,
}
use tabela_pubg.Organizations.{
  MembershipRow, AuditEventRow, Tables, is_member, is_owner, may_manage, sanitize_snapshot,
}
use tabela_pubg.Members.{
  MutationMetadata, UpdateMembershipRolesInput, MemberStatus, updated, last_owner, unavailable,
  append_events, conclude, lock_organization, is_active_owner, set_role, given, audit_event,
  outbox_event,
}
use tabela_pubg.Members.Updates.{apply_roles, update_target, update_membership_roles}
use tabela_pubg.Members.Roles.{validate_role_payload, insert_assignments}
use tabela_pubg.Outbox.{EventEnvelope, to_outbox_record}
use tabela_pubg.Members.Operations.{Recorded, append_events_lem}

-- What is appended to the logs at the end of a change is its record.
pub append_events-Recorded :
    (now : ℕ) (t changed t' : Tables) (audit : AuditEventRow) (event : EventEnvelope)
    (input : MutationMetadata)
    → append_events now changed audit event ≡ ok t'
    → changed.audit_events ≡ t.audit_events
    → changed.outbox_events ≡ t.outbox_events
    → audit.id ≡ input.audit_event_id
    → event.id ≡ input.outbox_event_id
    → Recorded t t' audit.organization_id audit.actor_membership_id input
unfolding to_outbox_record
append_events-Recorded now t changed t' audit event input e a o i j =
    let done = append_events_lem now changed t' audit event e in
    record {
      audit = record audit {
        before = sanitize_snapshot audit.before;
        after = sanitize_snapshot audit.after;
      };
      audited = rw (sym a) done.3;
      audit_id = i;
      audit_organization = refl;
      audit_actor = refl;
      outbox = to_outbox_record event now;
      queued = rw (sym o) done.4;
      outbox_id = j;
      outbox_status = refl;
    }

pub concluded :
    (now : ℕ) (t changed t' : Tables) (audit : AuditEventRow) (event : EventEnvelope)
    (input : MutationMetadata) (status answer : MemberStatus)
    → conclude now changed audit event status ≡ ok (t', answer)
    → changed.audit_events ≡ t.audit_events
    → changed.outbox_events ≡ t.outbox_events
    → audit.id ≡ input.audit_event_id
    → event.id ≡ input.outbox_event_id
    → (answer ≡ status)
      × (t'.memberships ≡ changed.memberships)
      × Recorded t t' audit.organization_id audit.actor_membership_id input
unfolding conclude
concluded now t changed t' audit event input status answer e a o i j =
    let (u, k, l) = bound (append_events now changed audit event) _ (t', answer) e in
    let same : u ≡ t' = cc in
    let k' : append_events now changed audit event ≡ ok t' = k ∙ ap ok same in
    (
      cc,
      (append_events_lem now changed t' audit event k').0,
      append_events-Recorded now t changed t' audit event input k' a o i j,
    )

-- The request has been refused and has changed nothing.
abbrev pub Refused : Tables → Tables → MemberStatus → Type 0
Refused t t' st = (t' ≡ t) × ((st ≡ unavailable) ⊎ (st ≡ last_owner))

module _ (to_json : List (String × String) → String) (t t' : Tables) (now : ℕ)
    (organization_id : String) (st : MemberStatus) where
  abbrev pub active_member : String → Option MembershipRow
  active_member id = find (is_member organization_id id) t.memberships

  -- An owner is touched only while there is another one.
  abbrev pub spares_owner : MembershipRow → Bool
  spares_owner target =
      is_owner target.role && leb (count (is_active_owner organization_id) t.memberships) 1

  abbrev pub RolesUpdated : String → UpdateMembershipRolesInput → Type 0
  RolesUpdated membership_id input =
      (target : MembershipRow) × (actor : MembershipRow) × (st ≡ updated)
      × (active_member membership_id ≡ some target)
      × (active_member input.actor_membership_id ≡ some actor)
      × (may_manage actor.role ≡ true)
      × (is_owner target.role && not (is_owner actor.role) ≡ false)
      × (spares_owner target ≡ false)
      × (t'.memberships
          ≡ update (is_member organization_id membership_id)
              (set_role (given input.organization_role) input.occurred_at) t.memberships)
      × Recorded t t' organization_id input.actor_membership_id input.metadata

  roles_applied :
      (membership_id : String) (input : UpdateMembershipRolesInput) (target : MembershipRow)
      → apply_roles to_json t now organization_id membership_id input target ≡ ok (t', st)
      → (st ≡ updated)
        × (t'.memberships
            ≡ update
                (is_member organization_id membership_id)
                (set_role (given input.organization_role) input.occurred_at)
                t.memberships)
        × Recorded t t' organization_id input.actor_membership_id input.metadata
  unfolding apply_roles audit_event outbox_event
  roles_applied membership_id input target e =
      let (assignments, _, e') = bound (insert_assignments _ _) _ (t', st) e in
      concluded now t _ t' _ _ input.metadata updated st e' refl refl refl refl

  pub update_inv :
      (membership_id : String) (input : UpdateMembershipRolesInput)
      → update_membership_roles to_json t now organization_id membership_id input ≡ ok (t', st)
      → Refused t t' st ⊎ RolesUpdated membership_id input
  unfolding update_membership_roles update_target
  update_inv membership_id input e = elim (Bool-cases (lock_organization t organization_id)) [
    | inr n ↦ inl (cc (rw n at e), inl (cc (rw n at e)))
    | inl y ↦
        found (active_member membership_id) (active_member input.actor_membership_id) refl refl
          (rw y at e)
  ]
    where
      found :
          (target actor : Option MembershipRow)
          → active_member membership_id ≡ target
          → active_member input.actor_membership_id ≡ actor
          → update_target to_json t now organization_id membership_id input target actor
            ≡ ok (t', st)
          → Refused t t' st ⊎ RolesUpdated membership_id input
      found none actor k l h = inl (cc, inl (cc))
      found (some target) none k l h = inl (cc, inl (cc))
      found (some target) (some actor) k l h = decide _ _ refl refl h
        where
          decide :
              (denied spared : Bool)
              → (not (may_manage actor.role)
                  || (is_owner target.role && not (is_owner actor.role))
                  || not (length input.assignment_ids == length input.role_payload)
                  || not (validate_role_payload t organization_id [] input.role_payload))
                ≡ denied
              → spares_owner target ≡ spared
              → (if denied
                  then ok (t, unavailable)
                  else if spared
                  then ok (t, last_owner)
                  else apply_roles to_json t now organization_id membership_id input target)
                ≡ ok (t', st)
              → Refused t t' st ⊎ RolesUpdated membership_id input
          decide true spared g s c = inl (cc, inl (cc))
          decide false true g s c = inl (cc, inr (cc))
          decide false false g s c =
              let (done, same, recorded) = roles_applied membership_id input target c in
              inr
                (target, actor, done, k, l, ground (arith, g), ground (arith, g), s, same, recorded)
