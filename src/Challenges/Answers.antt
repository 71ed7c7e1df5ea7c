-- ===== src/Challenges/Answers.antt =====
-- A code that has just been requested is accepted: replaceAuthChallengeDigest, then
-- consumeAuthChallenge.
use tabela_pubg.Prelude.{
  ℕ, ◌<◌, ◌≡◌, refl, sym, String, Bool, true, false, Option, none, some, List, [], ◌∷◌, ◌++◌,
  update, returning, first, ok, arith, eq_refl, if◌then◌else◌, touch, passed, same_text,
}
use tabela_pubg.Challenges.{
  AuthChallengeRow, is_open, is_open_for, is_bound, is_usable, supersede, consume, insert_challenge,
  ReplaceChallengeInput, challenge_row, replaced, assert_challenge_binding,
  replace_auth_challenge_digest,
}
use tabela_pubg.Challenges.Consumption.{
  GuessInput, consumed, guessable, guessed, consume_auth_challenge,
}

-- The guess of a requested code.
abbrev pub right_guess : ReplaceChallengeInput → GuessInput
right_guess input = record {
  email_digest = input.email_digest;
  purpose = input.purpose;
  code_digest = input.code_digest;
  actor_id = input.actor_id;
  session_id = input.session_id;
}

module _ (input : ReplaceChallengeInput) (now : ℕ) where
  -- Whatever was open before the request is not taken for the new code.
  older_unfit :
      (r : AuthChallengeRow)
      → guessed (right_guess input) now (touch (replaced input) (supersede input.now) r) ≡ false
  unfolding guessed guessable replaced is_open_for supersede is_open
  older_unfit r = unfit (replaced input r) refl
    where
      unfit :
          (b : Bool)
          → replaced input r ≡ b
          → guessed (right_guess input) now (if b then supersede input.now r else r) ≡ false
      unfit true e = ground arith
      unfit false e = ground (arith, e)

  same_text_refl : (text : Option String) → same_text text text ≡ true
  same_text_refl none = refl
  same_text_refl (some text) = eq_refl text

  newest_fits :
      0 < input.attempts_remaining
      → now < input.expires_at
      → guessed (right_guess input) now (challenge_row input) ≡ true
  unfolding guessed guessable is_open_for is_bound is_open is_usable challenge_row
  newest_fits many early = ground (
    arith,
    eq_refl input.email_digest,
    eq_refl input.code_digest,
    same_text_refl input.actor_id,
    same_text_refl input.session_id,
  )

  first_new :
      (rows : List AuthChallengeRow)
      → guessed (right_guess input) now (challenge_row input) ≡ true
      → first (
          returning
            (guessed (right_guess input) now)
            (consume now)
            (update (replaced input) (supersede input.now) rows ++ challenge_row input ∷ []))
        ≡ some (consume now (challenge_row input))
  first_new [] fits = rw fits refl
  first_new (r ∷ rows) fits = ground (arith, older_unfit r, first_new rows fits)

  insert_challenge_lem :
      (rows rows' : List AuthChallengeRow)
      → insert_challenge rows (challenge_row input) ≡ ok rows'
      → rows ++ challenge_row input ∷ [] ≡ rows'
  unfolding insert_challenge
  insert_challenge_lem rows rows' e = ground arith

  -- A request for a code that returns leaves a table on which the right guess, for the same email,
  -- purpose, user and session, is answered as consumed with the id and the user of the request, as
  -- long as the code has not expired and was given an attempt.
  pub consume_auth_challenge-replace_auth_challenge_digest :
      (rows rows' : List AuthChallengeRow)
      → replace_auth_challenge_digest rows input ≡ ok rows'
      → 0 < input.attempts_remaining
      → now < input.expires_at
      → (rows'' : List AuthChallengeRow) × (consume_auth_challenge rows' (right_guess input) now
          ≡ ok (rows'', consumed input.id input.actor_id))
  unfolding replace_auth_challenge_digest insert_challenge consume_auth_challenge challenge_row
      consume
  consume_auth_challenge-replace_auth_challenge_digest rows rows' e many early =
      let (checked, inserted) =
        passed (assert_challenge_binding input.purpose input.actor_id input.session_id) _ rows' e in
      let older = update (replaced input) (supersede input.now) rows in
      let appended : older ++ challenge_row input ∷ [] ≡ rows' =
        insert_challenge_lem older rows' inserted in
      let found = first_new rows (newest_fits many early) in
      rw (sym appended) (
        update (guessed (right_guess input) now) (consume now) (older ++ challenge_row input ∷ []),
        rw (checked, found) refl,
      )
