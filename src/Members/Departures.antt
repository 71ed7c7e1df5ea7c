-- ===== src/Members/Departures.antt =====
-- What a removal of a member and a transfer of ownership that answer have found and done.
use tabela_pubg.Prelude.{
  ℕ, ◌≡◌, refl, ◌⊎◌, inl, inr, String, Bool, true, false, not, ◌||◌, Option, none, some, List,
  update, select, find, first, returning, arith, ok, if◌then◌else◌, Bool-cases, is_none, str_eq,
}
use tabela_pubg.Organizations.{MembershipRow, Tables, is_member, is_owner, may_manage}
use tabela_pubg.Members.{
  MutationMetadata, MemberStatus, removed, transferred, last_owner, unavailable, is_owning,
  lock_organization, revoke_member, audit_event, outbox_event,
}
use tabela_pubg.Members.Exits.{
  apply_removal, revoke_target, revoke_membership, apply_transfer, transfer_ownership, is_party,
  transferred_memberships,
}
use tabela_pubg.Members.Operations.{Recorded}
use tabela_pubg.Members.Outcomes.{Refused, active_member, spares_owner, concluded}

module _ (to_json : List (String × String) → String) (t t' : Tables) (now : ℕ)
    (organization_id : String) (st : MemberStatus) where
  abbrev pub Removed : String → String → MutationMetadata → Type 0
  Removed membership_id actor_id input =
      (target : MembershipRow) × (actor : MembershipRow) × (st ≡ removed)
      × (active_member to_json t t' now organization_id st membership_id ≡ some target)
      × (active_member to_json t t' now organization_id st actor_id ≡ some actor)
      × (may_manage actor.role ≡ true)
      × (spares_owner to_json t t' now organization_id st target ≡ false)
      × (t'.memberships
          ≡ update (is_member organization_id membership_id) (revoke_member input) t.memberships)
      × Recorded t t' organization_id actor_id input

  removal_applied :
      (membership_id actor_id : String) (input : MutationMetadata) (target : MembershipRow)
      (row : Option MembershipRow)
      → apply_removal to_json t now organization_id membership_id actor_id input target row
        ≡ ok (t', st)
      → Refused t t' st
        ⊎ ((st ≡ removed)
            × (t'.memberships
                ≡ update
                    (is_member organization_id membership_id)
                    (revoke_member input)
                    t.memberships)
            × Recorded t t' organization_id actor_id input)
  unfolding apply_removal audit_event outbox_event
  removal_applied membership_id actor_id input target none e = inl (cc, inl (cc))
  removal_applied membership_id actor_id input target (some row) e =
      inr (concluded now t _ t' _ _ input removed st e refl refl refl refl)

  pub removal_inv :
      (membership_id actor_id : String) (input : MutationMetadata)
      → revoke_membership to_json t now organization_id membership_id actor_id input ≡ ok (t', st)
      → Refused t t' st ⊎ Removed membership_id actor_id input
  unfolding revoke_membership revoke_target
  removal_inv membership_id actor_id input e =
      elim (Bool-cases (lock_organization t organization_id)) [
        | inr n ↦ inl (cc (rw n at e), inl (cc (rw n at e)))
        | inl y ↦
            found (find (is_member organization_id membership_id) t.memberships)
              (find (is_member organization_id actor_id) t.memberships) refl refl (rw y at e)
      ]
    where
      found :
          (target actor : Option MembershipRow)
          → find (is_member organization_id membership_id) t.memberships ≡ target
          → find (is_member organization_id actor_id) t.memberships ≡ actor
          → revoke_target to_json t now organization_id membership_id actor_id input target actor
            ≡ ok (t', st)
          → Refused t t' st ⊎ Removed membership_id actor_id input
      found none actor k l h = inl (cc, inl (cc))
      found (some target) none k l h = inl (cc, inl (cc))
      found (some target) (some actor) k l h = decide _ _ refl refl h
        where
          decide :
              (manages spared : Bool)
              → may_manage actor.role ≡ manages
              → spares_owner to_json t t' now organization_id st target ≡ spared
              → (if not manages
                  then ok (t, unavailable)
                  else if spared
                  then ok (t, last_owner)
                  else apply_removal to_json t now organization_id membership_id actor_id input
                      target
                      (first (
                        returning
                          (is_member organization_id membership_id)
                          (revoke_member input)
                          t.memberships)))
                ≡ ok (t', st)
              → Refused t t' st ⊎ Removed membership_id actor_id input
          decide false spared g s c = inl (cc, inl (cc))
          decide true true g s c = inl (cc, inr (cc))
          decide true false g s c = elim (removal_applied membership_id actor_id input target _ c) [
            | inl r ↦ inl r
            | inr (done, same, recorded) ↦ inr (target, actor, done, k, l, g, s, same, recorded)
          ]

  abbrev pub parties : String → String → List MembershipRow
  parties current new = select (is_party to_json t now organization_id current new) t.memberships

  abbrev pub Transferred : String → String → MutationMetadata → Type 0
  Transferred current new input =
      (old_owner : MembershipRow) × (new_owner : MembershipRow) × (st ≡ transferred)
      × (str_eq current new ≡ false)
      × (find (λ m. str_eq m.id current) (parties current new) ≡ some old_owner)
      × (find (λ m. str_eq m.id new) (parties current new) ≡ some new_owner)
      × (is_owner old_owner.role ≡ true)
      × (t'.memberships
          ≡ transferred_memberships to_json t now organization_id current new input.occurred_at)
      × Recorded t t' organization_id current input

  pub transfer_inv :
      (current new : String) (input : MutationMetadata)
      → transfer_ownership to_json t now organization_id current new input ≡ ok (t', st)
      → Refused t t' st ⊎ Transferred current new input
  unfolding transfer_ownership apply_transfer audit_event outbox_event
  transfer_inv current new input e =
      elim (Bool-cases (str_eq current new || not (lock_organization t organization_id))) [
        | inl y ↦ inl (cc (rw y at e), inl (cc (rw y at e)))
        | inr n ↦
            found (ground (arith, n)) (find (λ m. str_eq m.id current) (parties current new))
              (find (λ m. str_eq m.id new) (parties current new)) refl refl (rw n at e)
      ]
    where
      found :
          str_eq current new ≡ false
          → (old_owner new_owner : Option MembershipRow)
          → find (λ m. str_eq m.id current) (parties current new) ≡ old_owner
          → find (λ m. str_eq m.id new) (parties current new) ≡ new_owner
          → (if not (is_owning old_owner) || is_none new_owner
              then ok (t, unavailable)
              else apply_transfer to_json t now organization_id current new input)
            ≡ ok (t', st)
          → Refused t t' st ⊎ Transferred current new input
      found apart none new_owner k l h = inl (cc, inl (cc))
      found apart (some old) none k l h = elim (Bool-cases (is_owner old.role)) [
        | inl y ↦ inl (cc (rw y at h), inl (cc (rw y at h)))
        | inr n ↦ inl (cc (rw n at h), inl (cc (rw n at h)))
      ]
      found apart (some old) (some fresh) k l h = elim (Bool-cases (is_owner old.role)) [
        | inr n ↦ inl (cc (rw n at h), inl (cc (rw n at h)))
        | inl y ↦
            let (done, same, recorded) =
              concluded now t _ t' _ _ input transferred st (rw y at h) refl refl refl refl in
            inr (old, fresh, done, apart, k, l, y, same, recorded)
      ]
