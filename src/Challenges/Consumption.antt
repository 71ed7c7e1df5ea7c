-- ===== src/Challenges/Consumption.antt =====
-- packages/database/src/repositories/identity.ts: consumeAuthChallenge, a guess of the code for an
-- email.
use tabela_pubg.Prelude.{
  ℕ, String, Bool, ◌&&◌, Option, none, some, List, update, returning, first, str_eq, Result, ok,
  ◌>>◌,
}
use tabela_pubg.Challenges.{
  assert_challenge_binding, is_open_for, consume, decrement, is_usable, AuthChallengeRow,
  AuthChallengePurpose,
}

pub data ConsumeResult : Type 0 where
  consumed : (challenge_id : String) (user_id : Option String) → ConsumeResult
  invalid : (attempts_remaining : ℕ) → ConsumeResult
  unavailable : ConsumeResult

pub record GuessInput : Type 0 where
  pub email_digest : String
  pub purpose : AuthChallengePurpose
  pub code_digest : String
  pub actor_id : Option String
  pub session_id : Option String

unfoldable pub guessable : GuessInput → ℕ → AuthChallengeRow → Bool
guessable input now r =
    is_open_for input.email_digest input.purpose input.actor_id input.session_id r
    && is_usable now r

unfoldable pub guessed : GuessInput → ℕ → AuthChallengeRow → Bool
guessed input now r = guessable input now r && str_eq r.code_digest input.code_digest

abbrev pub failed_guess : Option AuthChallengeRow → ConsumeResult
failed_guess none = unavailable
failed_guess (some r) = invalid r.attempts_remaining

abbrev pub after_consume :
    List AuthChallengeRow
    → List AuthChallengeRow
    → GuessInput
    → ℕ
    → Option AuthChallengeRow
    → List AuthChallengeRow × ConsumeResult
after_consume rows rows' input now (some r) = (rows', consumed r.id r.user_id)
after_consume rows rows' input now none = (
  update (guessable input now) decrement rows',
  failed_guess (first (returning (guessable input now) decrement rows')),
)

-- The digests are those of the email and of the code under the key.
unfoldable pub consume_auth_challenge :
    List AuthChallengeRow → GuessInput → ℕ → Result (List AuthChallengeRow × ConsumeResult)
consume_auth_challenge rows input now = do
  assert_challenge_binding input.purpose input.actor_id input.session_id
  ok (
      after_consume rows (update (guessed input now) (consume now) rows) input now
        (first (returning (guessed input now) (consume now) rows)))
