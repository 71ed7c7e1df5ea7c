-- ===== src/Challenges/Tests.antt =====
-- Runs of the one-time codes, and their theorems there.
use mathlib.Core.List.{Memᴰ}
use tabela_pubg.Prelude.{
  ◌+◌, ◌≡◌, refl, List, String, false, none, some, [], ◌∷◌, find_by, str_eq, arith, ok, Result,
}
use tabela_pubg.Challenges.{
  AuthChallengePurpose, sign_in, link_email, AuthChallengeRow, challenge_key,
  assert_challenge_binding, is_bound, is_open, is_open_for, supersede, consume, decrement, clashes,
  insert_challenge, ReplaceChallengeInput, challenge_row, replaced, replace_auth_challenge_digest,
  is_challenge, is_usable, may_fail, record_auth_challenge_failure, may_consume,
  consume_auth_challenge_by_digest, replace_auth_challenge,
}
use tabela_pubg.Challenges.Consumption.{
  consumed, invalid, unavailable, GuessInput, guessable, guessed, consume_auth_challenge,
}
use tabela_pubg.Challenges.History.{Step, Reach, here, next}
use tabela_pubg.Challenges.Endings.{
  IsWellFormed, challenges-IsWellFormed, challenges-ended, HasAtMost, challenges-HasAtMost,
}
use tabela_pubg.Challenges.Answers.{
  right_guess, consume_auth_challenge-replace_auth_challenge_digest,
}
use tabela_pubg.Challenges.Guesses.{Awaits, consume_auth_challenge-Answered}

running : Unit {0}
unfolding assert_challenge_binding is_bound is_open is_open_for supersede consume decrement clashes
    insert_challenge challenge_row replaced replace_auth_challenge_digest is_challenge is_usable
    may_fail record_auth_challenge_failure may_consume consume_auth_challenge_by_digest guessable
    guessed consume_auth_challenge replace_auth_challenge
running = tt

abbrev digest_of : String → AuthChallengePurpose → String → String
digest_of email purpose code = code

abbrev plain_digest : String → String
plain_digest email = email

abbrev requested : AuthChallengeRow
requested = record {
  id = "c1";
  user_id = none;
  session_id = none;
  email_digest = "a@b";
  purpose = sign_in;
  code_digest = "123456";
  attempts_remaining = 2;
  expires_at = 600000;
  superseded_at = none;
  consumed_at = none;
  created_at = 1000;
}

-- The digest version and the one over the email and the code agree here.
request_run :
    replace_auth_challenge plain_digest digest_of [] "c1" "a@b" sign_in "123456" 600000 none none
      (some 2)
      1000
    ≡ ok (requested ∷ [])
unfolding running
request_run = refl

abbrev request : ReplaceChallengeInput
request = record {
  id = "c1";
  email_digest = "a@b";
  purpose = sign_in;
  code_digest = "123456";
  attempts_remaining = 2;
  expires_at = 600000;
  now = 1000;
  actor_id = none;
  session_id = none;
}

digest_run : replace_auth_challenge_digest [] request ≡ ok (requested ∷ [])
unfolding running
digest_run = refl

-- A purpose other than a sign-in needs a user and a session.
unbound_run :
    replace_auth_challenge_digest [] (record request { purpose = link_email })
    ≡ Result.err "OTP purpose binding is invalid"
unfolding running
unbound_run = refl

abbrev guess : String → GuessInput
guess code = record {
  email_digest = "a@b";
  purpose = sign_in;
  code_digest = code;
  actor_id = none;
  session_id = none;
}

abbrev missed : AuthChallengeRow
missed = record requested { attempts_remaining = 1 }

abbrev used : AuthChallengeRow
used = record missed { consumed_at = some 3000 }

wrong_run :
    consume_auth_challenge (requested ∷ []) (guess "000000") 2000 ≡ ok (missed ∷ [], invalid 1)
unfolding running
wrong_run = refl

right_run :
    consume_auth_challenge (missed ∷ []) (guess "123456") 3000 ≡ ok (used ∷ [], consumed "c1" none)
unfolding running
right_run = refl

again_run : consume_auth_challenge (used ∷ []) (guess "123456") 4000 ≡ ok (used ∷ [], unavailable)
unfolding running
again_run = refl

history : Reach [] (used ∷ [])
history =
    next
      (next (next here (Step.request request digest_run))
        (Step.guess (guess "000000") 2000 (invalid 1) wrong_run))
      (Step.guess (guess "123456") 3000 (consumed "c1" none) right_run)

challenges-IsWellFormed_example : IsWellFormed (used ∷ [])
challenges-IsWellFormed_example =
    challenges-IsWellFormed (record { distinct = tt; ends = tt; single = λ e p a s. omega arith })
      history

ended : is_open used ≡ false
unfolding running
ended = refl

challenges-ended_example : find_by challenge_key "c1" (used ∷ []) ≡ some used
challenges-ended_example =
    challenges-ended "c1" used (next here (Step.guess (guess "123456") 4000 unavailable again_run))
      ended refl

challenges-HasAtMost_example : HasAtMost "c1" 2 (missed ∷ [])
challenges-HasAtMost_example =
    challenges-HasAtMost "c1" 2 (next here (Step.guess (guess "000000") 2000 (invalid 1) wrong_run))
      (requested, refl, omega arith)

consume_auth_challenge-Answered_example :
    (r : AuthChallengeRow) × Memᴰ r (requested ∷ [])
    × Awaits (guess "000000") 2000 r
    × (str_eq r.code_digest "000000" ≡ false)
    × (r.attempts_remaining ≡ 1 + 1)
    × (find_by challenge_key r.id (missed ∷ []) ≡ some (record r { attempts_remaining = 1 }))
consume_auth_challenge-Answered_example =
    consume_auth_challenge-Answered (requested ∷ []) (missed ∷ []) (guess "000000") 2000 (tt, tt)
      (invalid 1) wrong_run

consume_auth_challenge-replace_auth_challenge_digest_example :
    (rows : List AuthChallengeRow) × (consume_auth_challenge
        (requested ∷ [])
        (right_guess request)
        3000
      ≡ ok (rows, consumed "c1" none))
consume_auth_challenge-replace_auth_challenge_digest_example =
    consume_auth_challenge-replace_auth_challenge_digest request 3000 [] (requested ∷ []) digest_run
      (omega arith) (omega arith)
