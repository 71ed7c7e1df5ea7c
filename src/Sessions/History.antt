-- ===== src/Sessions/History.antt =====
-- The sessions over any history of sign-ins, rotations, promotions, touches, confirmations and
-- revocations, at times that do not go back.
use mathlib.Core.Path.{subst}
use tabela_pubg.Prelude.{
  ℕ, ◌≤◌, ◌≡◌, refl, sym, ◌>>=◌, String, Bool, true, Option, List, [], ◌∷◌, ◌++◌, update, All,
  HasDistinctKeys, HasDistinctKeys-update, HasDistinctKeys-append, ok, err, arith, eq_iff, Result,
}
use tabela_pubg.Sessions.{
  SessionTrust, SessionRow, DeviceRow, UserRow, session_id, token_of, is_session, write_token,
  promote_row, promote_provisional_session_trust, step_up_row, mark_session_step_up, revoke_row,
  revoke_session, is_other, revoke_other_sessions, may_rotate, may_replace, may_revoke,
}
use tabela_pubg.Sessions.Lookup.{touch_row, resolve_and_touch_session}
use tabela_pubg.Sessions.Issue.{
  identity_session_row, insert_session, rotate_row, rotate_identity_session, rotate_session,
  replace_row, replace_active_session_token,
}
use tabela_pubg.Sessions.Rows.{
  IsSound, IsSound-later, Write, identity_session_row-IsSound, rotate-Write, replace-Write,
  promote-Write, step_up-Write, revoke-Write, touch-Write,
}
use tabela_pubg.Sessions.Tokens.{write_token_lem}

-- One operation that succeeds, at the time its clock gives.
pub data Step (digest : String → String) (now : ℕ) (rows rows' : List SessionRow) : Type 0 where
  sign_in :
      (id user_id token : String) (trust : SessionTrust) (expires_at : ℕ) (device_id : String)
      → insert_session rows
          (identity_session_row digest id user_id token trust now expires_at device_id)
        ≡ ok rows'
      → Step digest now rows rows'
  reauthenticate :
      (user_id id token : String) (answer : Option String)
      → rotate_identity_session digest rows user_id id token now ≡ ok (rows', answer)
      → Step digest now rows rows'
  rotate :
      (user_id id token : String) (answer : Option (String × SessionRow))
      → rotate_session digest rows user_id id token now ≡ ok (rows', answer)
      → Step digest now rows rows'
  replace :
      (user_id id token : String) (answer : Bool)
      → replace_active_session_token digest rows user_id id token now ≡ ok (rows', answer)
      → Step digest now rows rows'
  promote :
      (user_id id : String)
      → rows' ≡ (promote_provisional_session_trust rows user_id id now).0
      → Step digest now rows rows'
  step_up :
      (user_id id : String)
      → rows' ≡ (mark_session_step_up rows user_id id now).0
      → Step digest now rows rows'
  revoke :
      (user_id id reason : String)
      → rows' ≡ (revoke_session rows user_id id reason now).0
      → Step digest now rows rows'
  revoke_others :
      (user_id preserved reason : String)
      → rows' ≡ (revoke_other_sessions rows user_id preserved reason now).0
      → Step digest now rows rows'
  touch :
      (devices : List DeviceRow) (users : List UserRow) (token_digest : String)
      → rows' ≡ (resolve_and_touch_session rows devices users token_digest now).0
      → Step digest now rows rows'

-- What happens from one time to a later one.
pub data Reach (digest : String → String) (t : ℕ) (rows : List SessionRow)
    : ℕ → List SessionRow → Type 0 where
  here : Reach digest t rows t rows
  next :
      {u : ℕ} (now : ℕ) {mid last : List SessionRow}
      → Reach digest t rows u mid
      → u ≤ now
      → Step digest now mid last
      → Reach digest t rows now last

pub record IsWellFormed (t : ℕ) (rows : List SessionRow) : Type 0 where
  pub ids : HasDistinctKeys session_id rows
  pub tokens : HasDistinctKeys token_of rows
  pub sound : All (IsSound t) rows

pub All-later :
    {t u : ℕ} (rows : List SessionRow) → t ≤ u → All (IsSound t) rows → All (IsSound u) rows
All-later [] h s = tt
All-later (r ∷ rs) h s = (IsSound-later r h s.0, All-later rs h s.1)

-- A step is an insert of a new session or a write.
pub data Change (now : ℕ) (rows rows' : List SessionRow) : Type 0 where
  insert :
      (row : SessionRow)
      → rows' ≡ rows ++ row ∷ []
      → IsSound now row
      → HasDistinctKeys session_id rows'
      → HasDistinctKeys token_of rows'
      → Change now rows rows'
  write :
      (where_ : SessionRow → Bool) (set : SessionRow → SessionRow)
      → rows' ≡ update where_ set rows
      → Write now where_ set
      → HasDistinctKeys token_of rows'
      → Change now rows rows'

-- A write that leaves the tokens alone.
plain :
    {now : ℕ} {rows rows' : List SessionRow} (where_ : SessionRow → Bool)
    (set : SessionRow → SessionRow)
    → rows' ≡ update where_ set rows
    → Write now where_ set
    → ((r : SessionRow) → (set r).token_digest ≡ r.token_digest)
    → HasDistinctKeys token_of rows
    → Change now rows rows'
plain {rows = rows} where_ set e w keeps d = write where_ set e w (
    subst (HasDistinctKeys token_of) (sym e)
      (HasDistinctKeys-update token_of where_ set keeps rows d))

-- A write of a digest to one session.
tokened :
    {now : ℕ} {rows rows' written : List SessionRow} (where_ : SessionRow → Bool)
    (set : SessionRow → SessionRow) (id token_digest : String)
    → ((r : SessionRow) → where_ r ≡ true → r.id ≡ id)
    → ((r : SessionRow) → (set r).token_digest ≡ token_digest)
    → Write now where_ set
    → HasDistinctKeys session_id rows
    → HasDistinctKeys token_of rows
    → write_token where_ set token_digest rows ≡ ok (rows', written)
    → Change now rows rows'
tokened {rows = rows} {rows' = rows'} {written = written} where_ set id token_digest one sets w i d
      e =
    let done = write_token_lem where_ set id token_digest one sets rows rows' written i d e in
    write where_ set done.0 w done.2

pub id_of_may_rotate :
    (user_id id : String) (now : ℕ) (r : SessionRow)
    → may_rotate user_id id now r ≡ true
    → r.id ≡ id
unfolding may_rotate is_session
id_of_may_rotate user_id id now r e = ground (arith, eq_iff r.id id)

id_of_may_replace :
    (user_id id : String) (now : ℕ) (r : SessionRow)
    → may_replace user_id id now r ≡ true
    → r.id ≡ id
unfolding may_replace is_session
id_of_may_replace user_id id now r e = ground (arith, eq_iff r.id id)

-- The write of a digest that a chain ends with has succeeded.
pub written_of :
    {B : Type 0} (q : Result (List SessionRow × List SessionRow)) (answer : List SessionRow → B)
    (rows' : List SessionRow) (b : B)
    → ◌>>=◌ {B = List SessionRow × B} q (λ p. ok (p.0, answer p.1)) ≡ ok (rows', b)
    → (written : List SessionRow) × (q ≡ ok (rows', written)) × (b ≡ answer written)
written_of (ok (rows, written)) answer rows' b e = (written, cc, cc)
written_of (err m) answer rows' b e = absurd (cc)

module _ (digest : String → String) where
  pub step-Change :
      {now : ℕ} {rows rows' : List SessionRow}
      → Step digest now rows rows'
      → HasDistinctKeys session_id rows
      → HasDistinctKeys token_of rows
      → Change now rows rows'
  unfolding insert_session rotate_identity_session rotate_session replace_active_session_token
      rotate_row replace_row promote_provisional_session_trust mark_session_step_up revoke_session
      revoke_other_sessions resolve_and_touch_session promote_row step_up_row revoke_row touch_row
  step-Change {now} {rows} {rows'} (sign_in id user_id token trust expires_at device_id e) i d =
      let row = identity_session_row digest id user_id token trust now expires_at device_id in
      let same : rows' ≡ rows ++ row ∷ [] = ground arith in
      insert row same
        (identity_session_row-IsSound digest id user_id token trust now expires_at device_id)
        (subst (HasDistinctKeys session_id) (sym same)
          (HasDistinctKeys-append session_id rows row i (ground arith)))
        (subst (HasDistinctKeys token_of) (sym same)
          (HasDistinctKeys-append token_of rows row d (ground arith)))
  step-Change {now} (reauthenticate user_id id token answer e) i d =
      tokened _ _ id (digest token) (id_of_may_rotate user_id id now) (λ r. refl)
        (rotate-Write digest user_id id token now) i d (written_of _ _ _ _ e).1
  step-Change {now} (rotate user_id id token answer e) i d =
      tokened _ _ id (digest token) (id_of_may_rotate user_id id now) (λ r. refl)
        (rotate-Write digest user_id id token now) i d (written_of _ _ _ _ e).1
  step-Change {now} (replace user_id id token answer e) i d =
      tokened _ _ id (digest token) (id_of_may_replace user_id id now) (λ r. refl)
        (replace-Write digest user_id id token now) i d (written_of _ _ _ _ e).1
  step-Change {now} (promote user_id id e) i d =
      plain _ _ e (promote-Write user_id id now) (λ r. refl) d
  step-Change {now} (step_up user_id id e) i d =
      plain _ _ e (step_up-Write user_id id now) (λ r. refl) d
  step-Change {now} (revoke user_id id reason e) i d =
      plain _ _ e (revoke-Write (may_revoke user_id id) reason now) (λ r. refl) d
  step-Change {now} (revoke_others user_id preserved reason e) i d =
      plain _ _ e (revoke-Write (is_other user_id preserved) reason now) (λ r. refl) d
  step-Change {now} (touch devices users token_digest e) i d =
      plain _ _ e (touch-Write users token_digest now) (λ r. refl) d
