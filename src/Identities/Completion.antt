-- ===== src/Identities/Completion.antt =====
-- packages/database/src/repositories/identity.ts: completeOtpChallenge. The transaction is a chain of
-- steps on the tables; an error that it throws rolls it back, and a rejection, a conflict of accounts
-- or a taken key is then the answer `rejected`. The hook after each step is for tests.
use tabela_pubg.Prelude.{
  ℕ, ◌+◌, ◌*◌, String, Bool, true, false, not, ◌&&◌, ◌||◌, Option, none, some, List, find,
  if◌then◌else◌, str_eq, is_some, Result, ok, err, ◌>>=◌, ◌>>◌, require,
}
use tabela_pubg.Sessions.{
  SessionRow, lock_active_session_for_otp, promote_provisional_session_trust, mark_session_step_up,
  revoke_other_sessions, is_trusted,
}
use tabela_pubg.Sessions.Issue.{replace_active_session_token}
use tabela_pubg.Challenges.{
  AuthChallengePurpose, AuthChallengeRow, ChallengeInput, assert_challenge_binding, is_bound,
  is_open, is_usable, same_purpose, is_sign_in, consume_auth_challenge_by_digest,
}
use tabela_pubg.Identities.{
  IdentityLinkProofRow, ProofPurpose, to_link_email, to_change_email, email, Registry, email_digest,
  insert_proof,
}
use tabela_pubg.Identities.Accounts.{
  AccountInput, AccountResult, created, resolved, conflict, account_conflict, completion_rejected,
  duplicate_key, create_email_account, link_verified_email_to_actor,
}

-- A `code` comes with the key of its digest; without the key it counts as missing.
pub record CompletionInput : Type 0 where
  pub challenge_id : String
  pub email_text : List ℕ
  pub purpose : AuthChallengePurpose
  pub actor_id : Option String
  pub session_id : Option String
  pub now : ℕ
  pub code_digest : Option String
  pub code : Option String
  pub user_id : String
  pub identity_id : String
  pub verified_email_id : String
  pub proof_id : String
  pub replacement_session_token : Option String

pub data Completion : Type 0 where
  authenticated : (user_id : String) → Completion
  identity_link_ready email_change_ready : (proof_id actor_id session_id : String) → Completion
  step_up_confirmed : (actor_id session_id : String) (confirmed_at : ℕ) → Completion
  provisional_email_verified : (user_id session_id session_token : String) → Completion
  rejected : Completion

abbrev pub account_input : CompletionInput → String → AccountInput
account_input input user_id = record {
  email_text = input.email_text;
  user_id = user_id;
  identity_id = input.identity_id;
  verified_email_id = input.verified_email_id;
  now = input.now;
}

abbrev pub challenge_input : CompletionInput → ChallengeInput
challenge_input input = record {
  challenge_id = input.challenge_id;
  purpose = input.purpose;
  actor_id = input.actor_id;
  session_id = input.session_id;
}

-- The open challenge for the email, the purpose, the code and the binding.
unfoldable pub is_completable : CompletionInput → String → String → AuthChallengeRow → Bool
unfolding is_bound is_open is_usable
is_completable input digest_of_email code_digest r =
    str_eq r.id input.challenge_id
    && str_eq r.email_digest digest_of_email
    && same_purpose r.purpose input.purpose
    && str_eq r.code_digest code_digest
    && is_bound input.actor_id input.session_id r
    && is_open r
    && is_usable input.now r

abbrev pub bound_session : Registry → Option String → Option String → ℕ → Option SessionRow
bound_session t (some actor_id) (some session_id) now =
    lock_active_session_for_otp t.sessions actor_id session_id now
bound_session t _ _ now = none

abbrev pub is_provisional : Option SessionRow → Bool
is_provisional none = false
is_provisional (some s) = not (is_trusted s.trust)

abbrev pub is_promotion : AuthChallengePurpose → Bool
is_promotion AuthChallengePurpose.verify_provisional_email = true
is_promotion _ = false

abbrev pub proof_for :
    CompletionInput → String → String → String → ProofPurpose → IdentityLinkProofRow
proof_for input digest_of_email actor_id session_id purpose = record {
  id = input.proof_id;
  user_id = actor_id;
  session_id = session_id;
  purpose = purpose;
  provider = email;
  provider_subject = digest_of_email;
  expires_at = input.now + 10 * 60000;
  consumed_at = none;
  created_at = input.now;
}

abbrev pub signed_in : Registry × AccountResult → Registry × Completion
signed_in (t, created user_id) = (t, authenticated user_id)
signed_in (t, resolved user_id) = (t, authenticated user_id)
signed_in (t, conflict) = (t, rejected)

module _ (digest : String → String) (sha256 : List ℕ → String) (to_lower_case : List ℕ → List ℕ)
    (challenge_code_digest : List ℕ → AuthChallengePurpose → String → String) where
  abbrev pub completion_code_digest :
      CompletionInput → Option String → Option String → Result String
  completion_code_digest input (some code_digest) code = ok code_digest
  completion_code_digest input none (some code) =
      ok (challenge_code_digest input.email_text input.purpose code)
  completion_code_digest input none none = err "OTP completion requires a code digest"

  -- The end of a promotion: the email, the trust, the token, the other sessions.
  unfoldable pub promote :
      Registry → CompletionInput → String → String → String → Result (Registry × Completion)
  unfolding link_verified_email_to_actor promote_provisional_session_trust
      replace_active_session_token revoke_other_sessions
  promote t input actor_id session_id token = do
    linked ← link_verified_email_to_actor sha256 to_lower_case t (account_input input actor_id)
    let promoted = promote_provisional_session_trust linked.sessions actor_id session_id input.now
    require promoted.1 completion_rejected
    written ← replace_active_session_token digest promoted.0 actor_id session_id token input.now
    require written.1 completion_rejected
    let ended = revoke_other_sessions written.0 actor_id session_id "identity-link" input.now
    ok (record linked { sessions = ended.0 }, provisional_email_verified actor_id session_id token)

  abbrev pub promote_with :
      Registry → CompletionInput → String → String → Option String → Result (Registry × Completion)
  promote_with t input actor_id session_id none =
      err "provisional promotion requires a replacement session token"
  promote_with t input actor_id session_id (some token) = promote t input actor_id session_id token

  -- What each purpose but a sign-in does for the user and the session.
  abbrev pub finish_bound :
      Registry
      → CompletionInput
      → AuthChallengePurpose
      → String
      → String
      → Result (Registry × Completion)
  finish_bound t input AuthChallengePurpose.sign_in actor_id session_id = err completion_rejected
  finish_bound t input AuthChallengePurpose.link_email actor_id session_id = do
    proofs ← insert_proof t.link_proofs (
        proof_for input (email_digest sha256 to_lower_case input.email_text) actor_id session_id
          to_link_email)
    ok (record t { link_proofs = proofs }, identity_link_ready input.proof_id actor_id session_id)
  finish_bound t input AuthChallengePurpose.change_email actor_id session_id = do
    proofs ← insert_proof t.link_proofs (
        proof_for input (email_digest sha256 to_lower_case input.email_text) actor_id session_id
          to_change_email)
    ok (record t { link_proofs = proofs }, email_change_ready input.proof_id actor_id session_id)
  finish_bound t input AuthChallengePurpose.step_up actor_id session_id = do
    let confirmed = mark_session_step_up t.sessions actor_id session_id input.now
    require confirmed.1 completion_rejected
    ok (record t { sessions = confirmed.0 }, step_up_confirmed actor_id session_id input.now)
  finish_bound t input AuthChallengePurpose.verify_provisional_email actor_id session_id =
      promote_with t input actor_id session_id input.replacement_session_token

  unfoldable pub finish_sign_in : Registry → CompletionInput → Result (Registry × Completion)
  unfolding create_email_account
  finish_sign_in t input = do
    done ← create_email_account sha256 to_lower_case t (account_input input input.user_id)
    ok (signed_in done)

  abbrev pub finish_with :
      Registry → CompletionInput → Option String → Option String → Result (Registry × Completion)
  finish_with t input (some actor_id) (some session_id) =
      finish_bound t input input.purpose actor_id session_id
  finish_with t input _ _ = err completion_rejected

  abbrev pub finish :
      Registry → CompletionInput → Option String → Option String → Result (Registry × Completion)
  finish t input actor_id session_id =
      if is_sign_in input.purpose
      then finish_sign_in t input
      else finish_with t input actor_id session_id

  -- The transaction.
  unfoldable pub complete : Registry → CompletionInput → String → Result (Registry × Completion)
  unfolding is_completable lock_active_session_for_otp consume_auth_challenge_by_digest
      finish_sign_in email_digest insert_proof mark_session_step_up promote
  complete t input code_digest = do
    let challenge =
        find (is_completable input (email_digest sha256 to_lower_case input.email_text) code_digest)
          t.challenges
    require (is_some challenge) completion_rejected
    let session = bound_session t input.actor_id input.session_id input.now
    require (is_sign_in input.purpose || is_some session) completion_rejected
    require (not (is_promotion input.purpose) || is_provisional session) completion_rejected
    consumed ←
        consume_auth_challenge_by_digest t.challenges (challenge_input input) code_digest input.now
    require consumed.1 completion_rejected
    finish (record t { challenges = consumed.0 }) input input.actor_id input.session_id

  abbrev pub is_rejection : String → Bool
  is_rejection message =
      str_eq message completion_rejected
      || str_eq message account_conflict
      || str_eq message duplicate_key

  abbrev pub or_rejected :
      Registry → Result (Registry × Completion) → Result (Registry × Completion)
  or_rejected t (ok done) = ok done
  or_rejected t (err message) = if is_rejection message then ok (t, rejected) else err message

  unfoldable pub complete_otp_challenge :
      Registry → CompletionInput → Result (Registry × Completion)
  unfolding assert_challenge_binding complete
  complete_otp_challenge t input = do
    assert_challenge_binding input.purpose input.actor_id input.session_id
    code_digest ← completion_code_digest input input.code_digest input.code
    or_rejected t (complete t input code_digest)
