-- ===== src/Challenges/Guesses.antt =====
-- What a guess of a code comes to.
use mathlib.Core.List.{Memᴰ}
use mathlib.Core.Path.{subst}
use tabela_pubg.Prelude.{
  ℕ, ◌+◌, ◌-◌, ◌<◌, ◌≡◌, refl, sym, ◌∙◌, inl, inr, Bool, true, false, Option, none, some, List, [],
  ◌∷◌, update, returning, first, arith, eq_iff, str_eq, ok, Memᴰ-returning, Bool-cases, ap, find_by,
  find_by-update, find_by-Memᴰ, HasDistinctKeys, any,
}
use tabela_pubg.Challenges.{
  AuthChallengeRow, challenge_key, is_open_for, is_usable, consume, decrement,
  assert_challenge_binding,
}
use tabela_pubg.Challenges.Consumption.{
  GuessInput, ConsumeResult, consumed, invalid, unavailable, guessable, guessed, failed_guess,
  after_consume, consume_auth_challenge,
}
use tabela_pubg.Challenges.History.{checked, unwrapped}

-- An open challenge for the input, unexpired and with attempts left.
abbrev pub Awaits : GuessInput → ℕ → AuthChallengeRow → Type 0
Awaits input now r =
    (is_open_for input.email_digest input.purpose input.actor_id input.session_id r ≡ true)
    × (0 < r.attempts_remaining)
    × (now < r.expires_at)

awaits :
    (input : GuessInput) (now : ℕ) (r : AuthChallengeRow)
    → guessable input now r ≡ true
    → Awaits input now r
unfolding guessable is_usable
awaits input now r e = (ground arith, ground arith, ground arith)

Memᴰ-first : (rs : List AuthChallengeRow) (r : AuthChallengeRow) → first rs ≡ some r → Memᴰ r rs
Memᴰ-first [] r e = absurd (cc)
Memᴰ-first (s ∷ rs) r e = Memᴰ.head (cc)

-- A statement that returns no row has changed none.
no_first :
    (p : AuthChallengeRow → Bool) (f : AuthChallengeRow → AuthChallengeRow)
    (rs : List AuthChallengeRow)
    → first (returning p f rs) ≡ none
    → (update p f rs ≡ rs) × (any p rs ≡ false)
no_first p f [] e = (refl, refl)
no_first p f (r ∷ rs) e = elim (Bool-cases (p r)) [
  | inl y ↦ absurd (cc (rw y at e))
  | inr n ↦ let ih = no_first p f rs (rw n at e) in (rw (n, ih.0) refl, rw (n, ih.1) refl)
]

false_of_any :
    (p : AuthChallengeRow → Bool) (rs : List AuthChallengeRow) (r : AuthChallengeRow)
    → any p rs ≡ false
    → Memᴰ r rs
    → p r ≡ false
false_of_any p [] r e m = elim m [ ]
false_of_any p (s ∷ rs) r e (Memᴰ.head same) = ground (arith, same)
false_of_any p (s ∷ rs) r e (Memᴰ.tail m) = false_of_any p rs r (ground arith) m

-- The row that a write has taken is found changed.
written :
    (p : AuthChallengeRow → Bool) (f : AuthChallengeRow → AuthChallengeRow)
    (rs : List AuthChallengeRow) (r : AuthChallengeRow)
    → ((s : AuthChallengeRow) → (f s).id ≡ s.id)
    → HasDistinctKeys challenge_key rs
    → Memᴰ r rs
    → p r ≡ true
    → find_by challenge_key r.id (update p f rs) ≡ some (f r)
written p f rs r keeps d m e =
    rw (find_by-update challenge_key p f keeps r.id rs, find_by-Memᴰ challenge_key r rs d m)
      (ap some (rw e refl))

module _ (rows rows' : List AuthChallengeRow) (input : GuessInput) (now : ℕ)
    (distinct : HasDistinctKeys challenge_key rows) where
  -- What an answer says of the challenge that it is about, and of the table after it.
  abbrev pub Answered : ConsumeResult → Type 0
  Answered (consumed id user_id) =
      (r : AuthChallengeRow) × Memᴰ r rows
      × (r.id ≡ id)
      × (r.user_id ≡ user_id)
      × Awaits input now r
      × (r.code_digest ≡ input.code_digest)
      × (find_by challenge_key r.id rows' ≡ some (record r { consumed_at = some now }))
  Answered (invalid left) =
      (r : AuthChallengeRow) × Memᴰ r rows
      × Awaits input now r
      × (str_eq r.code_digest input.code_digest ≡ false)
      × (r.attempts_remaining ≡ left + 1)
      × (find_by challenge_key r.id rows' ≡ some (record r { attempts_remaining = left }))
  Answered unavailable = (any (guessable input now) rows ≡ false) × (rows' ≡ rows)

  answered :
      (o : Option AuthChallengeRow) (result : ConsumeResult)
      → first (returning (guessed input now) (consume now) rows) ≡ o
      → after_consume rows (update (guessed input now) (consume now) rows) input now o
        ≡ (rows', result)
      → Answered result
  unfolding guessed consume decrement
  answered (some q) result f e =
      let (r, m, holds, same) =
        Memᴰ-returning (guessed input now) (consume now) rows q (Memᴰ-first _ q f) in
      let answer : consumed q.id q.user_id ≡ result = ap (λ x. x.1) e in
      let after : update (guessed input now) (consume now) rows ≡ rows' = ap (λ x. x.0) e in
      subst Answered answer (
        r,
        m,
        ap (λ x. x.id) (sym same),
        ap (λ x. x.user_id) (sym same),
        awaits input now r (ground arith),
        (eq_iff r.code_digest input.code_digest).0 (ground arith),
        rw (sym after)
            (written (guessed input now) (consume now) rows r (λ s. refl) distinct m holds),
      )
  answered none result f e =
      let (same, no_guess) = no_first (guessed input now) (consume now) rows f in
      failed (first (returning (guessable input now) decrement rows)) refl no_guess (rw same at e)
    where
      failed :
          (o : Option AuthChallengeRow)
          → first (returning (guessable input now) decrement rows) ≡ o
          → any (guessed input now) rows ≡ false
          → ◌≡◌ {A = List AuthChallengeRow × ConsumeResult}
              (update (guessable input now) decrement rows, failed_guess o)
              (rows', result)
          → Answered result
      failed none g n h =
          let (same, nobody) = no_first (guessable input now) decrement rows g in
          subst Answered (ap (λ x. x.1) h) (nobody, sym (ap (λ x. x.0) h) ∙ same)
      failed (some q) g n h =
          let (r, m, holds, same) =
            Memᴰ-returning (guessable input now) decrement rows q (Memᴰ-first _ q g) in
          let answer : invalid (r.attempts_remaining - 1) ≡ result =
            ap (λ x. invalid x.attempts_remaining) (sym same) ∙ ap (λ x. x.1) h in
          let after : update (guessable input now) decrement rows ≡ rows' = ap (λ x. x.0) h in
          let waits = awaits input now r holds in
          subst Answered answer (
            r,
            m,
            waits,
            ground (arith, false_of_any (guessed input now) rows r n m, holds),
            omega (arith, waits.1),
            rw (sym after)
                (written (guessable input now) decrement rows r (λ s. refl) distinct m holds),
          )

  -- Whatever a guess is answered, on a table with distinct ids, it is so by right: a consumed
  -- challenge was open for the input, unexpired, with attempts left and with this code, and is now
  -- consumed; an invalid one was so with another code, and has lost one attempt; and if the answer
  -- is that there is none, there is none and nothing has changed.
  pub consume_auth_challenge-Answered :
      (result : ConsumeResult)
      → consume_auth_challenge rows input now ≡ ok (rows', result)
      → Answered result
  unfolding consume_auth_challenge
  consume_auth_challenge-Answered result e =
      answered _ result refl
        (unwrapped (checked (assert_challenge_binding _ _ _) _ (rows', result) e))
