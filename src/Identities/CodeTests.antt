-- ===== src/Identities/CodeTests.antt =====
-- Runs of the completion of a one-time code, and its theorems there.
use tabela_pubg.Prelude.{
  ◌≡◌, ◌⊎◌, refl, ◌≢◌, ℕ, String, none, some, List, [], ◌∷◌, arith, ok, HasDistinctKeys, eq_iff,
  str_append, codes, trim,
}
use tabela_pubg.Sessions.{
  SessionRow, SessionTrust, session_id, is_live, is_session, may_rotate, write_token,
  promote_provisional_session_trust, promote_row, may_promote, may_replace,
  lock_active_session_for_otp, revoke_other_sessions, is_other, mark_session_step_up,
}
use tabela_pubg.Sessions.Issue.{
  replace_row, replace_active_session_token, rotate_identity_session, rotate_row,
}
use tabela_pubg.Challenges.{
  AuthChallengePurpose, is_bound, is_open, is_usable, may_consume, consume,
  consume_auth_challenge_by_digest, assert_challenge_binding, is_challenge,
}
use tabela_pubg.Identities.{
  Registry, normalize_email, email_digest, is_subject, is_live_identity, is_email_identity,
  insert_user, insert_identity, insert_verified_email, email_clashes,
}
use tabela_pubg.Identities.Accounts.{
  identity_row, email_row, is_current_email, is_account, find_email_account, insert_account,
  create_email_account, link_verified_email_to_actor,
}
use tabela_pubg.Identities.OAuth.{
  transaction_row, insert_transaction, is_transaction, consume_transaction,
  consume_oauth_transaction,
}
use tabela_pubg.Identities.Removal.{
  is_identity_of, is_owned, revoke_identity, revoke_email, remove_live, remove_owned_identity,
}
use tabela_pubg.Identities.Completion.{
  CompletionInput, authenticated, provisional_email_verified, rejected, is_completable, promote,
  finish_sign_in, complete, complete_otp_challenge,
}
use tabela_pubg.Identities.Completed.{Accepted, complete_otp_challenge-Accepted}
use tabela_pubg.Identities.Promotion.{Upgraded, complete_otp_challenge-Promoted}
use tabela_pubg.Identities.Reuse.{complete_otp_challenge_once}
use tabela_pubg.Identities.Tests.{
  digest_of, sha256_of, lower, challenge, empty, with_account, session, registry_of,
}

running : Unit {0}
unfolding trim normalize_email email_digest is_subject is_live_identity is_email_identity
    insert_user insert_identity insert_verified_email email_clashes identity_row email_row
    is_current_email is_account find_email_account insert_account create_email_account
    transaction_row insert_transaction is_transaction consume_transaction consume_oauth_transaction
    is_identity_of is_owned revoke_identity revoke_email remove_live remove_owned_identity
    rotate_identity_session write_token may_rotate is_live is_session lock_active_session_for_otp
    revoke_other_sessions is_other promote_provisional_session_trust promote_row may_promote
    may_replace replace_row replace_active_session_token link_verified_email_to_actor promote
    rotate_row is_challenge mark_session_step_up is_bound is_open is_usable may_consume consume
    consume_auth_challenge_by_digest assert_challenge_binding is_completable finish_sign_in complete
    complete_otp_challenge
running = tt

abbrev code_digest_of : List ℕ → AuthChallengePurpose → String → String
code_digest_of text purpose code = str_append "c" code

abbrev completion : String → CompletionInput
completion code = record {
  challenge_id = "h1";
  email_text = codes " Ana@X.io";
  purpose = AuthChallengePurpose.sign_in;
  actor_id = none;
  session_id = none;
  now = 100;
  code_digest = none;
  code = some code;
  user_id = "u1";
  identity_id = "n1";
  verified_email_id = "v1";
  proof_id = "p1";
  replacement_session_token = none;
}

abbrev signed_in_tables : Registry
unfolding running
signed_in_tables =
    registry_of
      (complete_otp_challenge digest_of sha256_of lower code_digest_of empty (completion "123456"))

complete_otp_challenge-authenticated :
    complete_otp_challenge digest_of sha256_of lower code_digest_of empty (completion "123456")
    ≡ ok (signed_in_tables, authenticated "u1")
unfolding running
complete_otp_challenge-authenticated = refl

complete_otp_challenge-rejected :
    complete_otp_challenge digest_of sha256_of lower code_digest_of empty (completion "000000")
    ≡ ok (empty, rejected)
unfolding running
complete_otp_challenge-rejected = refl

complete_otp_challenge-Accepted_example :
    ((signed_in_tables ≡ empty) × (authenticated "u1" ≡ rejected))
    ⊎ Accepted digest_of sha256_of lower code_digest_of empty signed_in_tables
        (completion "123456")
        (authenticated "u1")
complete_otp_challenge-Accepted_example =
    complete_otp_challenge-Accepted digest_of sha256_of lower code_digest_of empty signed_in_tables
      (completion "123456") (authenticated "u1") complete_otp_challenge-authenticated

-- The same code a second time.
again_refused :
    complete_otp_challenge digest_of sha256_of lower code_digest_of signed_in_tables
      (completion "123456")
    ≡ ok (signed_in_tables, rejected)
unfolding running
again_refused = refl

was_no_rejection : authenticated "u1" ≢ rejected
was_no_rejection e = absurd (cc e)

complete_otp_challenge_once_example : (signed_in_tables ≡ signed_in_tables) × (rejected ≡ rejected)
complete_otp_challenge_once_example =
    complete_otp_challenge_once digest_of sha256_of lower code_digest_of empty (tt, tt)
      signed_in_tables signed_in_tables (completion "123456") (completion "123456")
      (authenticated "u1") rejected complete_otp_challenge-authenticated was_no_rejection refl
      again_refused

-- A provisional session on one device, and another session of the same user.
abbrev provisional_session : SessionRow
provisional_session = record session { trust = SessionTrust.provisional; reauthenticated_at = none }

abbrev provisional_tables : Registry
provisional_tables = record with_account {
  sessions = provisional_session ∷ record session { id = "s2"; token_digest = "dtwo" } ∷ [];
  challenges =
      record challenge {
        user_id = some "u1";
        session_id = some "s1";
        purpose = AuthChallengePurpose.verify_provisional_email;
      }
      ∷ [];
}

abbrev promotion : CompletionInput
promotion = record (completion "123456") {
  purpose = AuthChallengePurpose.verify_provisional_email;
  actor_id = some "u1";
  session_id = some "s1";
  replacement_session_token = some "new";
}

abbrev promoted_tables : Registry
unfolding running
promoted_tables =
    registry_of
      (complete_otp_challenge digest_of sha256_of lower code_digest_of provisional_tables promotion)

complete_otp_challenge-promoted :
    complete_otp_challenge digest_of sha256_of lower code_digest_of provisional_tables promotion
    ≡ ok (promoted_tables, provisional_email_verified "u1" "s1" "new")
unfolding running
complete_otp_challenge-promoted = refl

apart_sessions : HasDistinctKeys session_id provisional_tables.sessions
apart_sessions = ((ground (arith, eq_iff "s2" "s1"), tt), (tt, tt))

complete_otp_challenge-Promoted_example :
    Upgraded digest_of provisional_tables promoted_tables promotion "u1" "s1" "new"
complete_otp_challenge-Promoted_example =
    complete_otp_challenge-Promoted digest_of sha256_of lower code_digest_of provisional_tables
      promoted_tables promotion "u1" "s1" "new" apart_sessions complete_otp_challenge-promoted
