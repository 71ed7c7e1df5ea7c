-- ===== src/Domain.antt =====
-- packages/domain/src: the temporal policies of identity.ts and the last-owner rule of
-- organizations.ts. A `Date` is its number of milliseconds since the epoch; a clock is the time
-- that it returns.
pub mod Policies
pub mod Tests
use tabela_pubg.Prelude.{
  ℕ, ◌+◌, ◌-◌, ◌*◌, String, Bool, true, false, not, ◌&&◌, Option, none, some, List, find, any, leb,
  ltb, if◌then◌else◌, str_eq,
}

abbrev pub minute_in_ms : ℕ
minute_in_ms = 60 * 1000

abbrev pub day_in_ms : ℕ
day_in_ms = 24 * 60 * minute_in_ms

abbrev pub otp_code_length : ℕ
otp_code_length = 8

abbrev pub otp_max_attempts : ℕ
otp_max_attempts = 5

abbrev pub otp_lifetime_ms : ℕ
otp_lifetime_ms = 10 * minute_in_ms

abbrev pub invitation_lifetime_ms : ℕ
invitation_lifetime_ms = 7 * day_in_ms

abbrev pub step_up_lifetime_ms : ℕ
step_up_lifetime_ms = 10 * minute_in_ms

abbrev pub session_idle_lifetime_ms : ℕ
session_idle_lifetime_ms = 30 * day_in_ms

abbrev pub session_absolute_lifetime_ms : ℕ
session_absolute_lifetime_ms = 90 * day_in_ms

pub record OtpChallengePolicy : Type 0 where
  pub issued_at : ℕ
  pub expires_at : ℕ
  pub code_length : ℕ
  pub attempts_remaining : ℕ

pub record InvitationValidity : Type 0 where
  pub issued_at : ℕ
  pub expires_at : ℕ

pub record SessionValidity : Type 0 where
  pub created_at : ℕ
  pub last_seen_at : ℕ
  pub idle_expires_at : ℕ
  pub absolute_expires_at : ℕ

pub data SessionValidityState : Type 0 where
  active idle_expired absolute_expired : SessionValidityState

abbrev pub expires_after : ℕ → ℕ → ℕ
expires_after now lifetime_ms = now + lifetime_ms

unfoldable pub create_otp_challenge : ℕ → OtpChallengePolicy
create_otp_challenge now = record {
  issued_at = now;
  expires_at = expires_after now otp_lifetime_ms;
  code_length = otp_code_length;
  attempts_remaining = otp_max_attempts;
}

unfoldable pub is_otp_challenge_expired : OtpChallengePolicy → ℕ → Bool
is_otp_challenge_expired challenge now = leb challenge.expires_at now

unfoldable pub create_invitation_validity : ℕ → InvitationValidity
create_invitation_validity now = record {
  issued_at = now;
  expires_at = expires_after now invitation_lifetime_ms;
}

unfoldable pub is_invitation_expired : InvitationValidity → ℕ → Bool
is_invitation_expired invitation now = leb invitation.expires_at now

-- The age `now - performedAt` may be negative: that is the first test.
unfoldable pub is_step_up_fresh : Option ℕ → ℕ → Bool
is_step_up_fresh none now = false
is_step_up_fresh (some performed_at) now =
    leb performed_at now && ltb (now - performed_at) step_up_lifetime_ms

unfoldable pub create_session_validity : ℕ → SessionValidity
create_session_validity now = record {
  created_at = now;
  last_seen_at = now;
  idle_expires_at = expires_after now session_idle_lifetime_ms;
  absolute_expires_at = expires_after now session_absolute_lifetime_ms;
}

unfoldable pub evaluate_session_validity : SessionValidity → ℕ → SessionValidityState
evaluate_session_validity validity now =
    if leb validity.absolute_expires_at now
    then absolute_expired
    else if leb validity.idle_expires_at now
    then idle_expired
    else active

pub data MembershipRole : Type 0 where
  owner admin : MembershipRole

pub data MembershipStatus : Type 0 where
  active revoked : MembershipStatus

pub record OrganizationMembership : Type 0 where
  pub id : String
  pub role : MembershipRole
  pub status : MembershipStatus

-- `ok` or the error LAST_OWNER_REMOVAL
pub data OwnerRemovalResult : Type 0 where
  ok last_owner_removal : OwnerRemovalResult

abbrev pub is_active_owner : OrganizationMembership → Bool
is_active_owner m = both m.status m.role
  where
    both : MembershipStatus → MembershipRole → Bool
    both MembershipStatus.active owner = true
    both _ _ = false

unfoldable pub validate_owner_removal : String → List OrganizationMembership → OwnerRemovalResult
validate_owner_removal target_id memberships =
    elim (find (λ m. str_eq m.id target_id) memberships) [
      | none ↦ ok
      | some target ↦
          if not (is_active_owner target)
          then ok
          else if not (any (λ m. not (str_eq m.id target_id) && is_active_owner m) memberships)
          then last_owner_removal
          else ok
    ]
