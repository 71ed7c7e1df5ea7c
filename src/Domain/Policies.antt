-- ===== src/Domain/Policies.antt =====
-- What the policies of packages/domain/src promise.
use tabela_pubg.Prelude.{
  ℕ, ◌+◌, ◌≢◌, ◌*◌, ◌≤◌, ◌<◌, ◌≡◌, refl, ◌↔◌, inl, inr, String, Bool, true, not, ◌&&◌, Option, none,
  some, List, [], ◌∷◌, find, count, arith, str_eq, eq_iff, Bool-cases, All, update,
  any-eq_false_iff,
}
use tabela_pubg.Domain.{
  day_in_ms, step_up_lifetime_ms, is_step_up_fresh, create_session_validity,
  evaluate_session_validity, SessionValidityState, MembershipStatus, OrganizationMembership,
  last_owner_removal, is_active_owner, validate_owner_removal,
}

-- A step-up counts as fresh exactly when it was performed, not in the future, and less than ten
-- minutes ago.
pub is_step_up_fresh_iff :
    (performed_at : Option ℕ) (now : ℕ)
    → (is_step_up_fresh performed_at now ≡ true)
      ↔ ((t : ℕ) × (performed_at ≡ some t) × (t ≤ now) × (now < t + step_up_lifetime_ms))
unfolding is_step_up_fresh
is_step_up_fresh_iff none now = (λ h. cc, λ h. ground arith)
is_step_up_fresh_iff (some t) now = (λ h. (t, refl, ground arith, ground arith), λ h. ground arith)

-- A new session that nobody touches is active for thirty days, idle-expired from then to the
-- ninetieth day, and absolutely expired from there on.
pub evaluate_session_validity-create_session_validity :
    (created now : ℕ) (k : ℕ)
    → now ≡ created + k
    → let state = evaluate_session_validity (create_session_validity created) now in
      ((state ≡ SessionValidityState.active) ↔ (k < 30 * day_in_ms))
      × ((state ≡ SessionValidityState.idle_expired)
          ↔ ((30 * day_in_ms ≤ k) × (k < 90 * day_in_ms)))
      × ((state ≡ SessionValidityState.absolute_expired) ↔ (90 * day_in_ms ≤ k))
unfolding evaluate_session_validity create_session_validity
evaluate_session_validity-create_session_validity created now k e = (
  (λ h. ground arith, λ h. ground arith),
  (λ h. ground arith, λ h. ground arith),
  (λ h. ground arith, λ h. ground arith),
)

-- The members of an organization have different ids.
abbrev pub HasDistinctIds : List OrganizationMembership → Type 0
HasDistinctIds [] = Unit {0}
HasDistinctIds (m ∷ ms) = All (λ n. n.id ≢ m.id) ms × HasDistinctIds ms

abbrev pub active_owners : List OrganizationMembership → ℕ
active_owners = count is_active_owner

-- What removing a member does: every row with the id becomes revoked.
abbrev pub revoke_member : String → List OrganizationMembership → List OrganizationMembership
revoke_member id =
    update (λ m. str_eq m.id id) (λ m. record m { status = MembershipStatus.revoked })

abbrev is_other_owner : String → OrganizationMembership → Bool
is_other_owner id m = not (str_eq m.id id) && is_active_owner m

active_owners-revoke_member :
    (id : String) (ms : List OrganizationMembership)
    → active_owners (revoke_member id ms) ≡ count (is_other_owner id) ms
active_owners-revoke_member id [] = refl
active_owners-revoke_member id (m ∷ ms) = ground (arith, active_owners-revoke_member id ms)

other_owners_of_absent :
    (id : String) (ms : List OrganizationMembership)
    → All (λ n. n.id ≢ id) ms
    → count (is_other_owner id) ms ≡ active_owners ms
other_owners_of_absent id [] h = refl
other_owners_of_absent id (m ∷ ms) h =
    ground (arith, eq_iff m.id id, other_owners_of_absent id ms h.1)

-- With no other owner, the target is the owner that there is.
find_only_owner :
    (id : String) (ms : List OrganizationMembership)
    → HasDistinctIds ms
    → 0 < active_owners ms
    → count (is_other_owner id) ms ≡ 0
    → (t : OrganizationMembership) × (find (λ m. str_eq m.id id) ms ≡ some t)
      × (is_active_owner t ≡ true)
find_only_owner id [] d h k = absurd (omega arith)
find_only_owner id (m ∷ ms) d h k = elim (Bool-cases (str_eq m.id id)) [
  | inl e ↦ (
    m,
    rw e,
    ground (arith, eq_iff m.id id, other_owners_of_absent id ms (rw (← (eq_iff m.id id).0 e) d.0)),
  )
  | inr e ↦ rw e (find_only_owner id ms d.1 (ground arith) (ground arith))
]

-- The rule refuses exactly when the removal would leave an organization, which has an active owner
-- and distinct ids, without any active owner.
pub validate_owner_removal_iff :
    (id : String) (ms : List OrganizationMembership)
    → HasDistinctIds ms
    → 0 < active_owners ms
    → (validate_owner_removal id ms ≡ last_owner_removal)
      ↔ (active_owners (revoke_member id ms) ≡ 0)
unfolding validate_owner_removal
validate_owner_removal_iff id ms d h = rw (active_owners-revoke_member id ms) (
  λ e. (any-eq_false_iff (is_other_owner id) ms).0 (ground arith),
  λ k.
      let (t, found, owns) = find_only_owner id ms d h k in
      ground (arith, (any-eq_false_iff (is_other_owner id) ms).1 k),
)
