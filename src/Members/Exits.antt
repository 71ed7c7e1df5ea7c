-- ===== src/Members/Exits.antt =====
-- packages/database/src/repositories/organizations.ts: revokeMembership and transferOwnership.
use tabela_pubg.Prelude.{
  ℕ, String, Bool, not, ◌&&◌, ◌||◌, Option, none, some, List, [], ◌∷◌, select, find, update,
  returning, first, count, leb, if◌then◌else◌, str_eq, is_none, Result, ok,
}
use tabela_pubg.Organizations.{owner, member, MembershipRow, Tables, is_active, is_owner, is_member}
use tabela_pubg.Members.{
  MutationMetadata, MemberStatus, removed, transferred, last_owner, unavailable, lock_organization,
  organization_role_text, set_role, revoke_member, is_active_owner, is_manager, is_owning,
  audit_event, outbox_event, conclude,
}

module _ (to_json : List (String × String) → String) (t : Tables) (available_at : ℕ)
    (organization_id membership_id : String) where
  unfoldable pub apply_removal :
      String
      → MutationMetadata
      → MembershipRow
      → Option MembershipRow
      → Result (Tables × MemberStatus)
  apply_removal actor input target none = ok (t, unavailable)
  apply_removal actor input target (some row) =
      let role = some (organization_role_text target.role) in
      conclude available_at
        (record t {
          memberships =
              update (is_member organization_id membership_id) (revoke_member input) t.memberships;
        })
        (audit_event input organization_id actor "membership.revoked" "organization-membership"
          membership_id (("membershipStatus", some "active") ∷ ("organizationRole", role) ∷ [])
          (("membershipStatus", some "revoked") ∷ ("organizationRole", role) ∷ []))
        (outbox_event input "membership.revoked" "organization-membership" membership_id
          (to_json (("organizationId", organization_id) ∷ ("membershipId", membership_id) ∷ [])))
        removed

  unfoldable pub revoke_target :
      String
      → MutationMetadata
      → Option MembershipRow
      → Option MembershipRow
      → Result (Tables × MemberStatus)
  revoke_target actor_id input none actor = ok (t, unavailable)
  revoke_target actor_id input (some target) actor =
      if not (is_manager actor)
      then ok (t, unavailable)
      else if is_owner target.role && leb (count (is_active_owner organization_id) t.memberships) 1
      then ok (t, last_owner)
      else apply_removal actor_id input target (
          first (
            returning (is_member organization_id membership_id) (revoke_member input)
              t.memberships))

  unfoldable pub revoke_membership : String → MutationMetadata → Result (Tables × MemberStatus)
  revoke_membership actor_membership_id input =
      if not (lock_organization t organization_id)
      then ok (t, unavailable)
      else revoke_target actor_membership_id input
          (find (is_member organization_id membership_id) t.memberships)
          (find (is_member organization_id actor_membership_id) t.memberships)

module _ (to_json : List (String × String) → String) (t : Tables) (available_at : ℕ)
    (organization_id current_owner_id new_owner_id : String) where
  unfoldable pub is_party : MembershipRow → Bool
  is_party m =
      str_eq m.organization_id organization_id
      && is_active m.status
      && (str_eq m.id current_owner_id || str_eq m.id new_owner_id)

  -- Both updates, the new owner's first.
  unfoldable pub transferred_memberships : ℕ → List MembershipRow
  transferred_memberships now =
      update (is_member organization_id current_owner_id) (set_role member now)
        (update (is_member organization_id new_owner_id) (set_role owner now) t.memberships)

  unfoldable pub apply_transfer : MutationMetadata → Result (Tables × MemberStatus)
  apply_transfer input =
      conclude available_at (record t { memberships = transferred_memberships input.occurred_at })
        (audit_event input organization_id current_owner_id "ownership.transferred" "organization"
          organization_id (("ownership", some current_owner_id) ∷ [])
          (("ownership", some new_owner_id) ∷ []))
        (outbox_event input "ownership.transferred" "organization" organization_id (
          to_json (
            ("organizationId", organization_id)
            ∷ ("previousOwnerMembershipId", current_owner_id)
            ∷ ("newOwnerMembershipId", new_owner_id)
            ∷ [])))
        transferred

  unfoldable pub transfer_ownership : MutationMetadata → Result (Tables × MemberStatus)
  transfer_ownership input =
      let parties = select is_party t.memberships in
      if str_eq current_owner_id new_owner_id || not (lock_organization t organization_id)
      then ok (t, unavailable)
      else if not (is_owning (find (λ m. str_eq m.id current_owner_id) parties))
          || is_none (find (λ m. str_eq m.id new_owner_id) parties)
      then ok (t, unavailable)
      else apply_transfer input
