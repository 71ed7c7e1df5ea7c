-- ===== src/Identities/Removal.antt =====
-- packages/database/src/repositories/identity.ts: removeOwnedIdentity.
use tabela_pubg.Prelude.{
  ℕ, String, Bool, false, not, ◌&&◌, Option, none, some, List, any, select, update, returning,
  first, length, leb, if◌then◌else◌, str_eq, is_none, Result, ok, err, ◌>>=◌,
}
use tabela_pubg.Sessions.{
  SessionRow, is_active_user, lock_active_session_for_otp, revoke_other_sessions,
}
use tabela_pubg.Sessions.Issue.{rotate_identity_session}
use tabela_pubg.Identities.{IdentityRow, revoked, VerifiedEmailRow, Registry, is_live_identity}
use tabela_pubg.Identities.OAuth.{is_fresh}

pub record RemovalInput : Type 0 where
  pub actor_id : String
  pub current_session_id : String
  pub identity_id : String
  pub replacement_session_token : String
  pub now : ℕ

pub data RemovalResult : Type 0 where
  removed : (session_id : String) (other_sessions_revoked : ℕ) → RemovalResult
  not_found last_verified : RemovalResult

abbrev pub is_fresh_session : ℕ → Option SessionRow → Bool
is_fresh_session now none = false
is_fresh_session now (some s) = is_fresh now s.reauthenticated_at

-- a verified identity of a user
unfoldable pub is_identity_of : String → IdentityRow → Bool
unfolding is_live_identity
is_identity_of user_id i = str_eq i.user_id user_id && is_live_identity i

unfoldable pub is_owned : String → String → IdentityRow → Bool
unfolding is_identity_of
is_owned user_id id i = str_eq i.id id && is_identity_of user_id i

unfoldable pub revoke_identity : ℕ → IdentityRow → IdentityRow
revoke_identity now i = record i { status = revoked; revoked_at = some now }

abbrev pub is_email_of : String → String → VerifiedEmailRow → Bool
is_email_of user_id identity_id e =
    str_eq e.user_id user_id && str_eq e.identity_id identity_id && is_none e.revoked_at

unfoldable pub revoke_email : ℕ → VerifiedEmailRow → VerifiedEmailRow
revoke_email now e = record e { revoked_at = some now }

module _ (digest : String → String) where
  abbrev pub rotated :
      Registry → RemovalInput → List SessionRow × Option String → Result (Registry × RemovalResult)
  rotated t input (rows, none) = err "identity removal session unavailable"
  rotated t input (rows, some session_id) =
      let ended =
        revoke_other_sessions rows input.actor_id input.current_session_id "identity-remove"
          input.now in
      ok (
        record t {
          sessions = ended.0;
          identities =
              update (is_owned input.actor_id input.identity_id) (revoke_identity input.now)
                t.identities;
          verified_emails =
              update (is_email_of input.actor_id input.identity_id) (revoke_email input.now)
                t.verified_emails;
        },
        removed session_id ended.1,
      )

  unfoldable pub remove_live : Registry → RemovalInput → Result (Registry × RemovalResult)
  unfolding is_identity_of is_owned revoke_identity revoke_email revoke_other_sessions
      rotate_identity_session
  remove_live t input =
      let live = select (is_identity_of input.actor_id) t.identities in
      if not (any (λ i. str_eq i.id input.identity_id) live)
      then ok (t, not_found)
      else if leb (length live) 1
      then ok (t, last_verified)
      else if is_none (
          first (
            returning (is_owned input.actor_id input.identity_id) (revoke_identity input.now)
              t.identities))
      then ok (t, not_found)
      else rotate_identity_session digest t.sessions input.actor_id input.current_session_id
          input.replacement_session_token input.now
        >>= rotated t input

  unfoldable pub remove_owned_identity : Registry → RemovalInput → Result (Registry × RemovalResult)
  unfolding lock_active_session_for_otp remove_live
  remove_owned_identity t input =
      if not (any (λ u. str_eq u.id input.actor_id && is_active_user u.status) t.users)
      then ok (t, not_found)
      else if not (
          is_fresh_session input.now (
            lock_active_session_for_otp t.sessions input.actor_id input.current_session_id
              input.now))
      then err "identity removal requires fresh authentication"
      else remove_live t input
