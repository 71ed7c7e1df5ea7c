-- ===== src/Challenges/History.antt =====
-- The challenges over any history of requests, failures and guesses.
use mathlib.Core.Path.{subst}
use tabela_pubg.Prelude.{
  ℕ, ◌≡◌, refl, String, Bool, false, Option, none, some, List, [], ◌∷◌, ◌++◌, update, returning,
  first, arith, ok, err, Result, ◌>>◌, any, ap,
}
use tabela_pubg.Challenges.{
  AuthChallengeRow, ChallengeInput, ReplaceChallengeInput, supersede, consume, decrement, may_fail,
  may_consume, replaced, clashes, insert_challenge, challenge_row, assert_challenge_binding,
  replace_auth_challenge_digest, record_auth_challenge_failure, consume_auth_challenge_by_digest,
}
use tabela_pubg.Challenges.Consumption.{
  GuessInput, ConsumeResult, guessable, guessed, after_consume, consume_auth_challenge,
}
use tabela_pubg.Challenges.Edits.{
  EndsOnce, Write, supersede-Write, consume-Write, decrement-Write, replaced-open, may_fail-open,
  may_consume-open, guessable-open, guessed-open,
}

-- One operation that succeeds, at any time.
pub data Step (rows rows' : List AuthChallengeRow) : Type 0 where
  request :
      (input : ReplaceChallengeInput)
      → replace_auth_challenge_digest rows input ≡ ok rows'
      → Step rows rows'
  failure :
      (input : ChallengeInput) (now left : ℕ)
      → record_auth_challenge_failure rows input now ≡ ok (rows', left)
      → Step rows rows'
  consumption :
      (input : ChallengeInput) (code_digest : String) (now : ℕ) (done : Bool)
      → consume_auth_challenge_by_digest rows input code_digest now ≡ ok (rows', done)
      → Step rows rows'
  guess :
      (input : GuessInput) (now : ℕ) (result : ConsumeResult)
      → consume_auth_challenge rows input now ≡ ok (rows', result)
      → Step rows rows'

pub data Reach (rows : List AuthChallengeRow) : List AuthChallengeRow → Type 0 where
  here : Reach rows rows
  next : {mid last : List AuthChallengeRow} → Reach rows mid → Step mid last → Reach rows last

-- A step is made of writes and an insert.
pub data Change : List AuthChallengeRow → List AuthChallengeRow → Type 0 where
  write :
      {rows rows' : List AuthChallengeRow} (where_ : AuthChallengeRow → Bool)
      (set : AuthChallengeRow → AuthChallengeRow)
      → Write where_ set
      → rows' ≡ update where_ set rows
      → Change rows rows'
  insert :
      {rows rows' : List AuthChallengeRow} (row : AuthChallengeRow)
      → any (clashes row) rows ≡ false
      → EndsOnce row
      → rows' ≡ rows ++ row ∷ []
      → Change rows rows'
  both :
      {rows mid rows' : List AuthChallengeRow}
      → Change rows mid
      → Change mid rows'
      → Change rows rows'

-- The statement after a check of the binding.
pub checked :
    {A : Type 0} (check : Result (Unit {0})) (rest : Result A) (a : A)
    → check >> rest ≡ ok a
    → rest ≡ ok a
checked (err m) rest a e = absurd (cc)
checked (ok u) rest a e = e

pub unwrapped : {A : Type 0} {a b : A} → ◌≡◌ {A = Result A} (ok a) (ok b) → a ≡ b
unwrapped e = cc

abbrev pub rows_of : {A : Type 0} → List AuthChallengeRow × A → List AuthChallengeRow
rows_of (rows, a) = rows

guess-Change :
    (rows : List AuthChallengeRow) (input : GuessInput) (now : ℕ) (o : Option AuthChallengeRow)
    → Change rows
        (rows_of (after_consume rows (update (guessed input now) (consume now) rows) input now o))
guess-Change rows input now (some r) =
    write (guessed input now) (consume now) (consume-Write _ (guessed-open input now) now) refl
guess-Change rows input now none =
    both {mid = update (guessed input now) (consume now) rows}
      (write (guessed input now) (consume now) (consume-Write _ (guessed-open input now) now) refl)
      (write (guessable input now) decrement (decrement-Write _ (guessable-open input now)) refl)

pub step-Change : {rows rows' : List AuthChallengeRow} → Step rows rows' → Change rows rows'
unfolding replace_auth_challenge_digest insert_challenge challenge_row record_auth_challenge_failure
    consume_auth_challenge_by_digest consume_auth_challenge
step-Change {rows} {rows'} (request input e) =
    let done = checked (assert_challenge_binding _ _ _) _ rows' e in
    let mid = update (replaced input) (supersede input.now) rows in
    both {mid = mid}
      (write (replaced input) (supersede input.now)
        (supersede-Write _ (replaced-open input) input.now) refl)
      (insert (challenge_row input) (ground arith) refl (ground arith))
step-Change {rows} {rows'} (failure input now left e) =
    let done = checked (assert_challenge_binding _ _ _) _ (rows', left) e in
    write (may_fail input now) decrement (decrement-Write _ (may_fail-open input now))
      (ground arith)
step-Change {rows} {rows'} (consumption input code_digest now result e) =
    let done = checked (assert_challenge_binding _ _ _) _ (rows', result) e in
    write (may_consume input code_digest now) (consume now)
      (consume-Write _ (may_consume-open input code_digest now) now) (ground arith)
step-Change {rows} {rows'} (guess input now result e) =
    let done = checked (assert_challenge_binding _ _ _) _ (rows', result) e in
    subst (Change rows) (ap rows_of (unwrapped done))
      (guess-Change rows input now (first (returning (guessed input now) (consume now) rows)))
