-- ===== src/Identities/Tests.antt =====
-- Runs of the operations on accounts, and their theorems there.
use tabela_pubg.Prelude.{
  ◌≡◌, ◌⊎◌, refl, ◌≤◌, ℕ, String, true, none, some, List, [], ◌∷◌, map, arith, ok, err,
  HasDistinctKeys, eq_iff, count, Result, find_by, str_append, codes, trim, if◌then◌else◌,
}
use tabela_pubg.Organizations.{fold_case}
use tabela_pubg.Sessions.{
  SessionRow, SessionTrust, UserStatus, is_live, is_session, may_rotate, write_token,
  promote_provisional_session_trust, promote_row, may_promote, may_replace,
  lock_active_session_for_otp, revoke_other_sessions, is_other, mark_session_step_up,
}
use tabela_pubg.Sessions.Issue.{
  replace_row, replace_active_session_token, rotate_identity_session, rotate_row,
}
use tabela_pubg.Challenges.{
  AuthChallengePurpose, AuthChallengeRow, is_bound, is_open, is_usable, may_consume, consume,
  consume_auth_challenge_by_digest, assert_challenge_binding, is_challenge,
}
use tabela_pubg.Identities.{
  Registry, OAuthPurpose, OAuthTransactionRow, discord, email, same_email, identity_id,
  normalize_email, email_digest, is_subject, is_live_identity, is_email_identity, insert_user,
  insert_identity, insert_verified_email, email_clashes,
}
use tabela_pubg.Identities.Accounts.{
  AccountInput, AccountResult, created, resolved, identity_row, email_row, is_current_email,
  is_account, find_email_account, insert_account, create_email_account,
  link_verified_email_to_actor,
}
use tabela_pubg.Identities.OAuth.{
  CreateOAuthTransactionInput, transaction_row, insert_transaction, is_transaction,
  consume_transaction, consume_oauth_transaction,
}
use tabela_pubg.Identities.Transactions.{Progress, start, state_of, consume_oauth_transaction_once}
use tabela_pubg.Identities.Removal.{
  RemovalInput, removed, last_verified, is_identity_of, is_owned, revoke_identity, revoke_email,
  remove_live, remove_owned_identity,
}
use tabela_pubg.Identities.LastIdentity.{remove_owned_identity-leaves_one}
use tabela_pubg.Identities.Returning.{SignIns, create_email_account_later}
use tabela_pubg.Identities.Completion.{
  is_completable, promote, finish_sign_in, complete, complete_otp_challenge,
}

running : Unit {0}
unfolding trim normalize_email email_digest is_subject is_live_identity is_email_identity
    insert_user insert_identity insert_verified_email email_clashes identity_row email_row
    is_current_email is_account find_email_account insert_account create_email_account
    transaction_row insert_transaction is_transaction consume_transaction consume_oauth_transaction
    is_identity_of is_owned revoke_identity revoke_email remove_live remove_owned_identity
    rotate_identity_session write_token may_rotate is_live is_session lock_active_session_for_otp
    revoke_other_sessions is_other promote_provisional_session_trust promote_row may_promote
    may_replace replace_row replace_active_session_token link_verified_email_to_actor promote
    rotate_row is_challenge mark_session_step_up is_bound is_open is_usable may_consume consume
    consume_auth_challenge_by_digest assert_challenge_binding is_completable finish_sign_in complete
    complete_otp_challenge
running = tt

abbrev pub ana : List ℕ
ana = codes "ana@x.io"

-- Stand-ins for the digests, which keep apart the values that are used here.
abbrev pub digest_of : String → String
digest_of token = str_append "d" token

abbrev pub sha256_of : List ℕ → String
sha256_of text = if same_email text ana then "ana" else "other"

abbrev pub lower : List ℕ → List ℕ
lower = map fold_case

abbrev pub challenge : AuthChallengeRow
challenge = record {
  id = "h1";
  user_id = none;
  session_id = none;
  email_digest = "ana";
  purpose = AuthChallengePurpose.sign_in;
  code_digest = "c123456";
  attempts_remaining = 5;
  expires_at = 600;
  superseded_at = none;
  consumed_at = none;
  created_at = 0;
}

abbrev pub empty : Registry
empty = record {
  users = [];
  sessions = [];
  challenges = challenge ∷ [];
  identities = [];
  verified_emails = [];
  oauth_transactions = [];
  link_proofs = [];
}

-- The email is typed with capitals and a space.
abbrev account : String → AccountInput
account user_id = record {
  email_text = codes " Ana@X.io";
  user_id = user_id;
  identity_id = "n1";
  verified_email_id = "v1";
  now = 100;
}

abbrev pub with_account : Registry
with_account = record empty {
  users = record { id = "u1"; status = UserStatus.active } ∷ [];
  identities = identity_row "n1" "u1" email "ana" 100 ∷ [];
  verified_emails = email_row "v1" "u1" "n1" ana 100 ∷ [];
}

create_email_account-created :
    create_email_account sha256_of lower empty (account "u1") ≡ ok (with_account, created "u1")
unfolding running
create_email_account-created = refl

abbrev pub registry_of : {A : Type 0} → Result (Registry × A) → Registry
registry_of (ok (t, answer)) = t
registry_of (err message) = empty

abbrev second_account : AccountInput
second_account = record {
  email_text = codes "bob@x.io";
  user_id = "u2";
  identity_id = "n2";
  verified_email_id = "v2";
  now = 200;
}

-- Another user has signed up since.
abbrev with_both : Registry
unfolding running
with_both = registry_of (create_email_account sha256_of lower with_account second_account)

second_run :
    create_email_account sha256_of lower with_account second_account ≡ ok (with_both, created "u2")
unfolding running
second_run = refl

create_email_account_later_example :
    (user_id : String) × ((◌≡◌ {A = AccountResult} (created "u1") (created user_id))
      ⊎ (◌≡◌ {A = AccountResult} (created "u1") (resolved user_id)))
    × (create_email_account sha256_of lower with_both (account "u9")
        ≡ ok (with_both, resolved user_id))
create_email_account_later_example =
    create_email_account_later sha256_of lower empty with_account with_both (account "u1")
      (account "u9") (created "u1") create_email_account-created (omega arith)
      (SignIns.next with_account with_both second_account (created "u2") SignIns.start second_run)
      refl

-- A user with an email and a Discord identity, who has just proved who she is.
abbrev pub session : SessionRow
session = record {
  id = "s1";
  user_id = "u1";
  device_id = "d1";
  token_digest = "dold";
  trust = SessionTrust.trusted;
  issued_at = 0;
  last_seen_at = 50;
  idle_expires_at = 1000;
  absolute_expires_at = 2000;
  reauthenticated_at = some 50;
  revoked_at = none;
  revocation_reason = none;
  created_at = 0;
  updated_at = 50;
}

abbrev with_two : Registry
with_two = record with_account {
  sessions = session ∷ [];
  identities =
      identity_row "n1" "u1" email "ana" 100 ∷ identity_row "n2" "u1" discord "42" 100 ∷ [];
}

abbrev removal : String → RemovalInput
removal id = record {
  actor_id = "u1";
  current_session_id = "s1";
  identity_id = id;
  replacement_session_token = "new";
  now = 120;
}

abbrev without_discord : Registry
unfolding running
without_discord = registry_of (remove_owned_identity digest_of with_two (removal "n2"))

remove_owned_identity-removed :
    remove_owned_identity digest_of with_two (removal "n2") ≡ ok (without_discord, removed "s1" 0)
unfolding running
remove_owned_identity-removed = refl

-- The other one is the last, so it stays.
remove_owned_identity-last :
    remove_owned_identity digest_of without_discord (removal "n1")
    ≡ ok (without_discord, last_verified)
unfolding running
remove_owned_identity-last = refl

remove_owned_identity-leaves_one_example :
    1 ≤ count (is_identity_of "u1") without_discord.identities
unfolding running
remove_owned_identity-leaves_one_example =
    remove_owned_identity-leaves_one digest_of with_two without_discord (removal "n2")
      (removed "s1" 0) "u1" apart remove_owned_identity-removed (omega arith)
  where
    apart : HasDistinctKeys identity_id with_two.identities
    apart = ((ground (arith, eq_iff "n2" "n1"), tt), (tt, tt))

abbrev transaction_input : String → CreateOAuthTransactionInput
transaction_input id = record {
  id = id;
  state = str_append id "state";
  browser_binding = "browser";
  purpose = OAuthPurpose.sign_in;
  expires_at = 600;
  user_id = none;
  session_id = none;
  return_path = none;
}

abbrev opened : String → OAuthTransactionRow
unfolding running
opened id = transaction_row digest_of (transaction_input id) none 0

abbrev closed : OAuthTransactionRow
unfolding running
closed = consume_transaction digest_of 100 (opened "a")

-- Another transaction is made after the consumption.
consume_oauth_transaction_once_example :
    ((r : OAuthTransactionRow) × (find_by state_of (digest_of "astate") (opened "a" ∷ []) ≡ some r)
      × (is_transaction digest_of "astate" "browser" OAuthPurpose.sign_in 100 r ≡ true)
      × (closed ≡ consume_transaction digest_of 100 r))
    × ((other : String) (aim : OAuthPurpose) (at : ℕ)
        → consume_oauth_transaction digest_of (closed ∷ opened "b" ∷ []) "astate" other aim at
          ≡ (closed ∷ opened "b" ∷ [], none))
unfolding running
consume_oauth_transaction_once_example =
    consume_oauth_transaction_once digest_of (opened "a" ∷ []) (closed ∷ [])
      (closed ∷ opened "b" ∷ []) "astate" "browser" OAuthPurpose.sign_in 100 closed (tt, tt) refl
      (Progress.created (closed ∷ []) (closed ∷ opened "b" ∷ []) (opened "b") start refl)
