-- ===== src/Identities/Accounts.antt =====
-- packages/database/src/repositories/identity.ts: accounts by email and by Discord, and the emails
-- and identities that a user adds. An error that is thrown is its name.
use tabela_pubg.Prelude.{
  ℕ, String, Bool, false, not, ◌&&◌, ◌||◌, Option, none, some, List, any, find, if◌then◌else◌,
  str_eq, is_none, is_some, Result, ok, err, ◌>>=◌, ◌>>◌, require,
}
use tabela_pubg.Sessions.{UserRow, is_active_user}
use tabela_pubg.Identities.{
  IdentityProvider, discord, email, verified, IdentityRow, VerifiedEmailRow, Registry, same_email,
  normalize_email, email_digest, is_subject, is_live_identity, is_email_identity, insert_user,
  insert_identity, insert_verified_email,
}

abbrev pub account_conflict : String
account_conflict = "email-account-conflict"

abbrev pub completion_rejected : String
completion_rejected = "otp-completion-rejected"

abbrev pub duplicate_key : String
duplicate_key = "duplicate key value violates unique constraint"

pub record AccountInput : Type 0 where
  pub email_text : List ℕ
  pub user_id : String
  pub identity_id : String
  pub verified_email_id : String
  pub now : ℕ

pub data AccountResult : Type 0 where
  created resolved : (user_id : String) → AccountResult
  conflict : AccountResult

-- a verified identity of a user, from now on
unfoldable pub identity_row : String → String → IdentityProvider → String → ℕ → IdentityRow
identity_row id user_id provider subject now = record {
  id = id;
  user_id = user_id;
  provider = provider;
  provider_subject = subject;
  status = verified;
  verified_at = some now;
  revoked_at = none;
}

unfoldable pub email_row : String → String → String → List ℕ → ℕ → VerifiedEmailRow
email_row id user_id identity_id normalized now = record {
  id = id;
  user_id = user_id;
  identity_id = identity_id;
  normalized_email = normalized;
  verified_at = now;
  revoked_at = none;
}

unfoldable pub is_current_email : List ℕ → VerifiedEmailRow → Bool
is_current_email normalized e = same_email e.normalized_email normalized && is_none e.revoked_at

-- The user of an identity is active, and the identity has the email.
unfoldable pub is_account : List UserRow → List VerifiedEmailRow → List ℕ → IdentityRow → Bool
unfolding is_current_email
is_account users emails normalized i =
    any (λ u. str_eq u.id i.user_id && is_active_user u.status) users
    && any
        (λ e.
          str_eq e.user_id i.user_id && str_eq e.identity_id i.id && is_current_email normalized e)
        emails

module _ (sha256 : List ℕ → String) (to_lower_case : List ℕ → List ℕ) where
  unfoldable pub find_email_account : Registry → List ℕ → Option IdentityRow
  unfolding normalize_email email_digest is_email_identity is_account
  find_email_account t email_text =
      let normalized = normalize_email to_lower_case email_text in
      find
        (λ i.
          is_email_identity (email_digest sha256 to_lower_case normalized) i
          && is_account t.users t.verified_emails normalized i)
        t.identities

  unfoldable pub insert_account : Registry → AccountInput → Result (Registry × AccountResult)
  unfolding normalize_email email_digest insert_user insert_identity insert_verified_email
      identity_row email_row
  insert_account t input = do
    let normalized = normalize_email to_lower_case input.email_text
    users ← insert_user t.users input.user_id
    identities ← insert_identity t.identities (
        identity_row input.identity_id input.user_id email
          (email_digest sha256 to_lower_case normalized) input.now)
    require identities.1 account_conflict
    emails ←
        insert_verified_email t.verified_emails
          (email_row input.verified_email_id input.user_id input.identity_id normalized input.now)
    ok (
      record t { users = users; identities = identities.0; verified_emails = emails },
      created input.user_id,
    )

  abbrev pub account_or_new :
      Registry → AccountInput → Option IdentityRow → Result (Registry × AccountResult)
  account_or_new t input (some account) = ok (t, resolved account.user_id)
  account_or_new t input none =
      if is_some
        (find (is_current_email (normalize_email to_lower_case input.email_text)) t.verified_emails)
      then err account_conflict
      else insert_account t input

  unfoldable pub create_email_account : Registry → AccountInput → Result (Registry × AccountResult)
  unfolding find_email_account insert_account normalize_email is_current_email
  create_email_account t input = account_or_new t input (find_email_account t input.email_text)

  abbrev pub winner_of : Option IdentityRow → AccountResult
  winner_of none = conflict
  winner_of (some account) = resolved account.user_id

  -- After a conflict the database is read again, without the transaction's writes.
  abbrev pub or_winner :
      Registry
      → AccountInput
      → Result (Registry × AccountResult)
      → Result (Registry × AccountResult)
  or_winner t input (ok done) = ok done
  or_winner t input (err message) =
      if str_eq message account_conflict || str_eq message duplicate_key
      then ok (t, winner_of (find_email_account t input.email_text))
      else err message

  unfoldable pub resolve_or_create_email_account :
      Registry → AccountInput → Result (Registry × AccountResult)
  unfolding create_email_account find_email_account
  resolve_or_create_email_account t input = or_winner t input (create_email_account t input)

  -- `linkVerifiedEmailToActor`, once the identity of the email is known.
  abbrev pub add_email :
      Registry
      → AccountInput
      → List IdentityRow
      → String
      → Option VerifiedEmailRow
      → Result Registry
  add_email t input identities identity_id (some e) =
      if str_eq e.identity_id identity_id
      then ok (record t { identities = identities })
      else err completion_rejected
  add_email t input identities identity_id none = do
    emails ← insert_verified_email t.verified_emails (
        email_row input.verified_email_id input.user_id identity_id
          (normalize_email to_lower_case input.email_text) input.now)
    ok (record t { identities = identities; verified_emails = emails })

  abbrev pub add_identity :
      Registry → AccountInput → Option VerifiedEmailRow → Option IdentityRow → Result Registry
  add_identity t input known (some i) = add_email t input t.identities i.id known
  add_identity t input known none = do
    identities ← insert_identity t.identities (
        identity_row input.identity_id input.user_id email
          (email_digest sha256 to_lower_case (normalize_email to_lower_case input.email_text))
          input.now)
    require identities.1 completion_rejected
    add_email t input identities.0 input.identity_id known

  abbrev pub is_foreign_identity : String → Option IdentityRow → Bool
  is_foreign_identity user_id none = false
  is_foreign_identity user_id (some i) = not (str_eq i.user_id user_id)

  abbrev pub is_foreign_email : String → Option VerifiedEmailRow → Bool
  is_foreign_email user_id none = false
  is_foreign_email user_id (some e) = not (str_eq e.user_id user_id)

  unfoldable pub link_verified_email_to_actor : Registry → AccountInput → Result Registry
  unfolding normalize_email email_digest insert_identity insert_verified_email identity_row
      email_row is_email_identity is_current_email
  link_verified_email_to_actor t input =
      let normalized = normalize_email to_lower_case input.email_text in
      let existing =
        find (is_email_identity (email_digest sha256 to_lower_case normalized)) t.identities in
      let known = find (is_current_email normalized) t.verified_emails in
      if is_foreign_identity input.user_id existing || is_foreign_email input.user_id known
      then err completion_rejected
      else add_identity t input known existing

pub record DiscordAccountInput : Type 0 where
  pub identity_id : String
  pub user_id : String
  pub subject : String
  pub verified_email : Option (List ℕ)
  pub verified_email_id : Option String
  pub now : ℕ

module _ (to_lower_case : List ℕ → List ℕ) where
  abbrev pub add_discord_email :
      Registry
      → DiscordAccountInput
      → Option (List ℕ)
      → Option String
      → Result (List VerifiedEmailRow)
  add_discord_email t input (some text) (some id) =
      insert_verified_email t.verified_emails (
        email_row id input.user_id input.identity_id (normalize_email to_lower_case text) input.now)
  add_discord_email t input _ _ = ok t.verified_emails

  -- A conflict on the identity rolls the new user back.
  unfoldable pub create_discord_account :
      Registry → DiscordAccountInput → Result (Registry × AccountResult)
  unfolding insert_user insert_identity insert_verified_email identity_row email_row normalize_email
  create_discord_account t input = do
    users ← insert_user t.users input.user_id
    identities ←
        insert_identity t.identities
          (identity_row input.identity_id input.user_id discord input.subject input.now)
    if not identities.1
        then ok (t, conflict)
        else add_discord_email t input input.verified_email input.verified_email_id >>= λ emails.
            ok (
              record t { users = users; identities = identities.0; verified_emails = emails },
              created input.user_id,
            )

-- `findDiscordIdentity`: the user, and whether a current email of the user is verified.
unfoldable pub find_discord_identity : Registry → String → Option (String × Bool)
unfolding is_subject is_live_identity
find_discord_identity t subject =
    elim (find (λ i. is_subject discord subject i && is_live_identity i) t.identities) [
      | none ↦ none
      | some i ↦ some (
        i.user_id,
        any (λ e. str_eq e.user_id i.user_id && is_none e.revoked_at) t.verified_emails,
      )
    ]

-- `linkIdentity`: whether the identity was free.
unfoldable pub link_identity :
    Registry → String → String → IdentityProvider → String → ℕ → Result (Registry × Bool)
unfolding insert_identity identity_row
link_identity t id user_id provider subject verified_at = do
  identities ← insert_identity t.identities (identity_row id user_id provider subject verified_at)
  ok (record t { identities = identities.0 }, identities.1)
