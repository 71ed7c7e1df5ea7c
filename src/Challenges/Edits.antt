-- ===== src/Challenges/Edits.antt =====
-- What each statement on the challenges does to a row.
use tabela_pubg.Prelude.{ℕ, ◌≤◌, ◌≡◌, refl, String, Bool, true, ◌||◌, Option, arith, is_none}
use tabela_pubg.Challenges.{
  AuthChallengePurpose, AuthChallengeRow, ChallengeInput, ReplaceChallengeInput, is_open,
  is_open_for, is_bound, supersede, consume, decrement, is_challenge, may_fail, may_consume,
  replaced,
}
use tabela_pubg.Challenges.Consumption.{GuessInput, guessable, guessed}

-- A challenge ends in one way.
abbrev pub EndsOnce : AuthChallengeRow → Type 0
EndsOnce r = is_none r.superseded_at || is_none r.consumed_at ≡ true

-- A write takes open rows only, keeps what they are for, and gives no attempt back.
pub record Write (where_ : AuthChallengeRow → Bool) (set : AuthChallengeRow → AuthChallengeRow)
    : Type 0 where
  pub keeps_id : (r : AuthChallengeRow) → (set r).id ≡ r.id
  pub takes_open : (r : AuthChallengeRow) → where_ r ≡ true → is_open r ≡ true
  pub opens_none :
      (email : String) (purpose : AuthChallengePurpose) (actor session : Option String)
      (r : AuthChallengeRow)
      → is_open_for email purpose actor session (set r) ≡ true
      → is_open_for email purpose actor session r ≡ true
  pub ends_once : (r : AuthChallengeRow) → is_open r ≡ true → EndsOnce (set r)
  pub attempts_le : (r : AuthChallengeRow) → (set r).attempts_remaining ≤ r.attempts_remaining

module _ (where_ : AuthChallengeRow → Bool)
    (open_only : (r : AuthChallengeRow) → where_ r ≡ true → is_open r ≡ true) where
  pub supersede-Write : (now : ℕ) → Write where_ (supersede now)
  unfolding supersede is_open_for is_open is_bound
  supersede-Write now = record {
    keeps_id = λ r. refl;
    takes_open = open_only;
    opens_none = λ e p a s r h. ground arith;
    ends_once = λ r h. ground arith;
    attempts_le = λ r. omega arith;
  }

  pub consume-Write : (now : ℕ) → Write where_ (consume now)
  unfolding consume is_open_for is_open is_bound
  consume-Write now = record {
    keeps_id = λ r. refl;
    takes_open = open_only;
    opens_none = λ e p a s r h. ground arith;
    ends_once = λ r h. ground arith;
    attempts_le = λ r. omega arith;
  }

  pub decrement-Write : Write where_ decrement
  unfolding decrement is_open_for is_open is_bound
  decrement-Write = record {
    keeps_id = λ r. refl;
    takes_open = open_only;
    opens_none = λ e p a s r h. h;
    ends_once = λ r h. ground arith;
    attempts_le = λ r. omega arith;
  }

pub replaced-open :
    (input : ReplaceChallengeInput) (r : AuthChallengeRow)
    → replaced input r ≡ true
    → is_open r ≡ true
unfolding replaced is_open_for
replaced-open input r e = ground arith

pub may_fail-open :
    (input : ChallengeInput) (now : ℕ) (r : AuthChallengeRow)
    → may_fail input now r ≡ true
    → is_open r ≡ true
unfolding may_fail is_challenge
may_fail-open input now r e = ground arith

pub may_consume-open :
    (input : ChallengeInput) (code : String) (now : ℕ) (r : AuthChallengeRow)
    → may_consume input code now r ≡ true
    → is_open r ≡ true
unfolding may_consume is_challenge
may_consume-open input code now r e = ground arith

pub guessable-open :
    (input : GuessInput) (now : ℕ) (r : AuthChallengeRow)
    → guessable input now r ≡ true
    → is_open r ≡ true
unfolding guessable is_open_for
guessable-open input now r e = ground arith

pub guessed-open :
    (input : GuessInput) (now : ℕ) (r : AuthChallengeRow)
    → guessed input now r ≡ true
    → is_open r ≡ true
unfolding guessed guessable is_open_for
guessed-open input now r e = ground arith
