-- ===== src/Challenges.antt =====
-- packages/database/src/repositories/identity.ts, the part on one-time codes, over the table
-- auth_challenges of packages/database/src/schema/identity.ts.
pub mod Consumption
pub mod Edits
pub mod History
pub mod Endings
pub mod Guesses
pub mod Answers
pub mod Tests
use tabela_pubg.Prelude.{
  ℕ, ◌+◌, ◌-◌, String, Bool, true, false, not, ◌&&◌, ◌||◌, Option, none, some, List, [], ◌∷◌, ◌++◌,
  any, update, returning, find, first, ltb, ◌==◌, if◌then◌else◌, str_eq, is_none, is_some,
  same_text, Result, ok, err, ◌>>=◌, ◌>>◌, require,
}

pub data AuthChallengePurpose : Type 0 where
  sign_in link_email change_email step_up verify_provisional_email : AuthChallengePurpose

abbrev pub number : AuthChallengePurpose → ℕ
number sign_in = 0
number link_email = 1
number change_email = 2
number step_up = 3
number verify_provisional_email = 4

abbrev pub same_purpose : AuthChallengePurpose → AuthChallengePurpose → Bool
same_purpose p q = number p == number q

pub record AuthChallengeRow : Type 0 where
  pub id : String
  pub user_id : Option String
  pub session_id : Option String
  pub email_digest : String
  pub purpose : AuthChallengePurpose
  pub code_digest : String
  pub attempts_remaining : ℕ
  pub expires_at : ℕ
  pub superseded_at : Option ℕ
  pub consumed_at : Option ℕ
  pub created_at : ℕ

abbrev pub challenge_key : AuthChallengeRow → String
challenge_key r = r.id

-- `!id`: undefined or empty
abbrev pub is_missing : Option String → Bool
is_missing none = true
is_missing (some id) = str_eq id ""

abbrev pub is_sign_in : AuthChallengePurpose → Bool
is_sign_in sign_in = true
is_sign_in _ = false

-- A sign-in is bound to nobody, every other purpose to a user and a session.
unfoldable pub assert_challenge_binding :
    AuthChallengePurpose → Option String → Option String → Result (Unit {0})
assert_challenge_binding purpose actor_id session_id =
    require
      (not (
        if is_sign_in purpose
        then not (is_none actor_id) || not (is_none session_id)
        else is_missing actor_id || is_missing session_id))
      "OTP purpose binding is invalid"

unfoldable pub is_bound : Option String → Option String → AuthChallengeRow → Bool
is_bound actor_id session_id r = same_text r.user_id actor_id && same_text r.session_id session_id

unfoldable pub is_open : AuthChallengeRow → Bool
is_open r = is_none r.superseded_at && is_none r.consumed_at

-- The open challenges for an email, a purpose and a binding.
unfoldable pub is_open_for :
    String → AuthChallengePurpose → Option String → Option String → AuthChallengeRow → Bool
is_open_for email_digest purpose actor_id session_id r =
    str_eq r.email_digest email_digest
    && same_purpose r.purpose purpose
    && is_bound actor_id session_id r
    && is_open r

unfoldable pub supersede : ℕ → AuthChallengeRow → AuthChallengeRow
supersede now r = record r { superseded_at = some now }

unfoldable pub consume : ℕ → AuthChallengeRow → AuthChallengeRow
consume now r = record r { consumed_at = some now }

-- It is written only where attempts remain.
unfoldable pub decrement : AuthChallengeRow → AuthChallengeRow
decrement r = record r { attempts_remaining = r.attempts_remaining - 1 }

-- The two unique indexes on open rows, of which the one on sign-ins takes no binding.
unfoldable pub clashes : AuthChallengeRow → AuthChallengeRow → Bool
clashes row r =
    str_eq r.id row.id
    || (str_eq r.email_digest row.email_digest
        && same_purpose r.purpose row.purpose
        && (is_sign_in row.purpose || is_bound row.user_id row.session_id r)
        && is_open r)

unfoldable pub insert_challenge :
    List AuthChallengeRow → AuthChallengeRow → Result (List AuthChallengeRow)
insert_challenge rows row =
    if any (clashes row) rows
    then err "duplicate key value violates unique constraint"
    else ok (rows ++ row ∷ [])

pub record ReplaceChallengeInput : Type 0 where
  pub id : String
  pub email_digest : String
  pub purpose : AuthChallengePurpose
  pub code_digest : String
  pub attempts_remaining : ℕ
  pub expires_at : ℕ
  pub now : ℕ
  pub actor_id : Option String
  pub session_id : Option String

unfoldable pub challenge_row : ReplaceChallengeInput → AuthChallengeRow
challenge_row input = record {
  id = input.id;
  user_id = input.actor_id;
  session_id = input.session_id;
  email_digest = input.email_digest;
  purpose = input.purpose;
  code_digest = input.code_digest;
  attempts_remaining = input.attempts_remaining;
  expires_at = input.expires_at;
  superseded_at = none;
  consumed_at = none;
  created_at = input.now;
}

unfoldable pub replaced : ReplaceChallengeInput → AuthChallengeRow → Bool
replaced input = is_open_for input.email_digest input.purpose input.actor_id input.session_id

unfoldable pub replace_auth_challenge_digest :
    List AuthChallengeRow → ReplaceChallengeInput → Result (List AuthChallengeRow)
replace_auth_challenge_digest rows input = do
  assert_challenge_binding input.purpose input.actor_id input.session_id
  insert_challenge (update (replaced input) (supersede input.now) rows) (challenge_row input)

pub record ChallengeInput : Type 0 where
  pub challenge_id : String
  pub purpose : AuthChallengePurpose
  pub actor_id : Option String
  pub session_id : Option String

unfoldable pub is_challenge : ChallengeInput → AuthChallengeRow → Bool
is_challenge input r =
    str_eq r.id input.challenge_id
    && same_purpose r.purpose input.purpose
    && is_bound input.actor_id input.session_id r
    && is_open r

-- attempts remain, and it has not expired
unfoldable pub is_usable : ℕ → AuthChallengeRow → Bool
is_usable now r = ltb 0 r.attempts_remaining && ltb now r.expires_at

unfoldable pub find_active_auth_challenge :
    List AuthChallengeRow → ChallengeInput → Result (Option AuthChallengeRow)
find_active_auth_challenge rows input = do
  assert_challenge_binding input.purpose input.actor_id input.session_id
  ok (find (is_challenge input) rows)

unfoldable pub may_fail : ChallengeInput → ℕ → AuthChallengeRow → Bool
may_fail input now r = is_challenge input r && is_usable now r

abbrev pub attempts_of : Option AuthChallengeRow → ℕ
attempts_of none = 0
attempts_of (some r) = r.attempts_remaining

unfoldable pub record_auth_challenge_failure :
    List AuthChallengeRow → ChallengeInput → ℕ → Result (List AuthChallengeRow × ℕ)
record_auth_challenge_failure rows input now = do
  assert_challenge_binding input.purpose input.actor_id input.session_id
  ok (
    update (may_fail input now) decrement rows,
    attempts_of (first (returning (may_fail input now) decrement rows)),
  )

unfoldable pub may_consume : ChallengeInput → String → ℕ → AuthChallengeRow → Bool
may_consume input code_digest now r =
    is_challenge input r && str_eq r.code_digest code_digest && is_usable now r

unfoldable pub consume_auth_challenge_by_digest :
    List AuthChallengeRow → ChallengeInput → String → ℕ → Result (List AuthChallengeRow × Bool)
consume_auth_challenge_by_digest rows input code_digest now = do
  assert_challenge_binding input.purpose input.actor_id input.session_id
  ok (
    update (may_consume input code_digest now) (consume now) rows,
    is_some (first (returning (may_consume input code_digest now) (consume now) rows)),
  )

module _ (email_digest : String → String)
    (challenge_code_digest : String → AuthChallengePurpose → String → String) where
  abbrev pub attempts_or_default : Option ℕ → ℕ
  attempts_or_default none = 5
  attempts_or_default (some n) = n

  unfoldable pub replace_auth_challenge :
      List AuthChallengeRow
      → String
      → String
      → AuthChallengePurpose
      → String
      → ℕ
      → Option String
      → Option String
      → Option ℕ
      → ℕ
      → Result (List AuthChallengeRow)
  replace_auth_challenge rows id email purpose code expires_at actor_id session_id attempts now =
      replace_auth_challenge_digest rows (record {
        id = id;
        email_digest = email_digest email;
        purpose = purpose;
        code_digest = challenge_code_digest email purpose code;
        attempts_remaining = attempts_or_default attempts;
        expires_at = expires_at;
        now = now;
        actor_id = actor_id;
        session_id = session_id;
      })
