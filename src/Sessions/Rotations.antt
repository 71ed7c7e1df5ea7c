-- ===== src/Sessions/Rotations.antt =====
-- What a rotation does to the tokens, and a revocation of the other sessions to the table.
use mathlib.Core.List.{Memᴰ}
use tabela_pubg.Prelude.{
  ℕ, ◌≡◌, ◌≢◌, refl, sym, ◌∙◌, ◌⊎◌, inl, inr, String, Bool, true, false, Option, none, some, List,
  [], ◌∷◌, update, first, only, map_some, first-returning, find_by, find_by-update, find_by-Memᴰ,
  HasDistinctKeys, Memᴰ-find, All, arith, eq_iff, Bool-cases, ok, str_eq, ap, touch, count,
  length-returning, eq_of_key, All-of_Memᴰ,
}
use tabela_pubg.Sessions.{
  SessionRow, DeviceRow, UserRow, session_id, token_of, is_live, is_session, may_rotate,
  revoke_other_sessions, is_other, revoke_row,
}
use tabela_pubg.Sessions.Lookup.{resolve_session}
use tabela_pubg.Sessions.Issue.{rotate_session, rotate_row}
use tabela_pubg.Sessions.Tokens.{write_token_lem}
use tabela_pubg.Sessions.History.{IsWellFormed, id_of_may_rotate, written_of}
use tabela_pubg.Sessions.Resolution.{resolve_session_lem}

All-update-touch {ℓ κ} :
    {A : Type ℓ} (P : A → Type κ) (p : A → Bool) (f : A → A) (rs : List A)
    → ((r : A) → Memᴰ r rs → P (touch p f r))
    → All P (update p f rs)
All-update-touch P p f [] h = tt
All-update-touch P p f (r ∷ rs) h =
    (h r (Memᴰ.head refl), All-update-touch P p f rs (λ s m. h s (Memᴰ.tail m)))

find_none {ℓ} :
    {A : Type ℓ} (key : A → String) (k : String) (rs : List A)
    → All (λ r. key r ≢ k) rs
    → find_by key k rs ≡ none
find_none key k [] h = refl
find_none key k (r ∷ rs) h = ground (arith, eq_iff (key r) k, find_none key k rs h.1)

only-true {ℓ κ} :
    {A : Type ℓ} {B : Type κ} (p : A → Bool) (f : A → A) (g : A → B) (o : Option A) (b : B)
    → map_some g (map_some f (only p o)) ≡ some b
    → (r : A) × (o ≡ some r) × (p r ≡ true) × (b ≡ g (f r))
only-true p f g none b e = absurd (cc)
only-true p f g (some r) b e = elim (Bool-cases (p r)) [
  | inl y ↦ (r, refl, y, ground (arith, rw y at e))
  | inr n ↦ absurd (cc (rw n at e))
]

module _ (digest : String → String) (user_id id token : String) (now : ℕ)
    (rows rows' : List SessionRow) (answer : String × SessionRow) (w : IsWellFormed now rows)
    (done : rotate_session digest rows user_id id token now ≡ ok (rows', some answer)) where
  -- The session that is rotated.
  abbrev Rotated : SessionRow → Type 0
  Rotated r =
      (find_by session_id id rows ≡ some r)
      × (may_rotate user_id id now r ≡ true)
      × (answer ≡ (token, rotate_row digest token now r))
      × (rows' ≡ update (may_rotate user_id id now) (rotate_row digest token now) rows)
      × HasDistinctKeys token_of rows'

  rotated : (r : SessionRow) × Rotated r
  unfolding rotate_session rotate_row
  rotated =
      let (written, e, a) = written_of _ _ _ _ done in
      let wrote =
        write_token_lem (may_rotate user_id id now) (rotate_row digest token now) id (digest token)
          (id_of_may_rotate user_id id now) (λ r. refl) rows rows' written w.ids w.tokens e in
      let taken =
        first-returning session_id (may_rotate user_id id now) id (id_of_may_rotate user_id id now)
          (rotate_row digest token now) rows w.ids in
      let f = rotate_row digest token now in
      let g : SessionRow → String × SessionRow = λ r. (token, r) in
      let (r, found, held, same) =
        only-true (may_rotate user_id id now) f g (find_by session_id id rows) answer
          (ap (map_some g) (sym taken) ∙ ap (λ x. map_some g (first x)) (sym wrote.1) ∙ sym a) in
      (r, (found, held, same, wrote.0, wrote.2))

  -- no row has the digest that the rotated one had
  old_is_gone :
      (r : SessionRow)
      → Rotated r
      → r.token_digest ≢ digest token
      → All (λ s. token_of s ≢ r.token_digest) rows'
  unfolding rotate_row
  old_is_gone r (found, held, same, written, distinct) fresh =
      rw written
        (All-update-touch _ (may_rotate user_id id now) (rotate_row digest token now) rows gone)
    where
      gone :
          (s : SessionRow)
          → Memᴰ s rows
          → (touch (may_rotate user_id id now) (rotate_row digest token now) s).token_digest
            ≢ r.token_digest
      gone s m e = elim (Bool-cases (may_rotate user_id id now s)) [
        | inl y ↦ fresh (sym (rw y at e))
        | inr n ↦
            let same : s ≡ r =
              eq_of_key token_of s r rows w.tokens m
                (Memᴰ-find (λ q. str_eq (session_id q) id) rows r found) (rw n at e) in
            absurd (cc (rw same at n))
      ]

  new_is_there :
      (r : SessionRow) → Rotated r → find_by token_of (digest token) rows' ≡ some answer.1
  unfolding rotate_row
  new_is_there r (found, held, same, written, distinct) =
      let held_by = may_rotate user_id id now in
      let reading =
        find_by-update session_id held_by (rotate_row digest token now) (λ s. refl) id rows in
      let by_id : find_by session_id id rows' ≡ some (rotate_row digest token now r) =
        rw (written, reading, found, held) refl in
      rw same (
        find_by-Memᴰ token_of (rotate_row digest token now r) rows' distinct
          (Memᴰ-find (λ q. str_eq (session_id q) id) rows' _ by_id))

  -- A rotation that answers, on a well-formed table, has found the session of the id, which was the
  -- user's and live. The answer is the new token and the session as it now is, under the same id and
  -- user, which is the one that the new token's digest finds. The old token resolves to nothing at
  -- whatever time, unless it has the same digest as the new one.
  pub rotate_session_tokens :
      (devices : List DeviceRow) (users : List UserRow) (later : ℕ)
      → (r : SessionRow) × (find_by session_id id rows ≡ some r)
        × (r.user_id ≡ user_id)
        × (is_live now r ≡ true)
        × (answer.0 ≡ token)
        × (answer.1.id ≡ id)
        × (answer.1.user_id ≡ user_id)
        × (find_by token_of (digest token) rows' ≡ some answer.1)
        × ((r.token_digest ≡ digest token)
            ⊎ (resolve_session rows' devices users r.token_digest later ≡ none))
  unfolding may_rotate is_session rotate_row
  rotate_session_tokens devices users later =
      let (r, facts) = rotated in
      let owned : r.user_id ≡ user_id = ground (arith, facts.1, eq_iff r.user_id user_id) in
      (
        r,
        facts.0,
        owned,
        ground (arith, facts.1),
        ap (λ x. x.0) facts.2,
        ap (λ x. x.1.id) facts.2 ∙ ground (arith, facts.1, eq_iff r.id id),
        ap (λ x. x.1.user_id) facts.2 ∙ owned,
        new_is_there r facts,
        old_ends r facts (Bool-cases (str_eq r.token_digest (digest token))),
      )
    where
      old_ends :
          (r : SessionRow)
          → Rotated r
          → (str_eq r.token_digest (digest token) ≡ true)
            ⊎ (str_eq r.token_digest (digest token) ≡ false)
          → (r.token_digest ≡ digest token)
            ⊎ (resolve_session rows' devices users r.token_digest later ≡ none)
      old_ends r facts (inl same) = inl ((eq_iff r.token_digest (digest token)).0 same)
      old_ends r facts (inr apart) =
          let fresh : r.token_digest ≢ digest token =
            ground (arith, eq_iff r.token_digest (digest token), apart) in
          inr (
            rw
              (
                resolve_session_lem rows' devices users r.token_digest later facts.4,
                find_none token_of r.token_digest rows' (old_is_gone r facts fresh),
              )
              refl)

revoked_others :
    (user_id preserved reason : String) (now : ℕ) (rows : List SessionRow)
    → count
        (is_other user_id preserved)
        (update (is_other user_id preserved) (revoke_row reason now) rows)
      ≡ 0
unfolding is_other revoke_row
revoked_others user_id preserved reason now [] = refl
revoked_others user_id preserved reason now (r ∷ rs) =
    ground (arith, revoked_others user_id preserved reason now rs)

-- Revoking the others of a user answers how many unrevoked sessions of the user there were besides
-- the preserved one, leaves none of them, and leaves every other row of the table as it was.
pub revoke_other_sessions_lem :
    (rows : List SessionRow) (user_id preserved reason : String) (now : ℕ)
    → let after = revoke_other_sessions rows user_id preserved reason now in
      (after.1 ≡ count (is_other user_id preserved) rows)
      × (count (is_other user_id preserved) after.0 ≡ 0)
      × All (λ r. (is_other user_id preserved r ≡ true) ⊎ Memᴰ r after.0) rows
unfolding revoke_other_sessions
revoke_other_sessions_lem rows user_id preserved reason now = (
  length-returning (is_other user_id preserved) (revoke_row reason now) rows,
  revoked_others user_id preserved reason now rows,
  kept rows,
)
  where
    kept :
        (rs : List SessionRow)
        → All
            (λ r.
              (is_other user_id preserved r ≡ true)
              ⊎ Memᴰ r (update (is_other user_id preserved) (revoke_row reason now) rs))
            rs
    kept rs = All-of_Memᴰ _ rs (λ r m. one r rs m)
      where
        one :
            (r : SessionRow) (ss : List SessionRow)
            → Memᴰ r ss
            → (is_other user_id preserved r ≡ true)
              ⊎ Memᴰ r (update (is_other user_id preserved) (revoke_row reason now) ss)
        one r [] m = elim m [ ]
        one r (s ∷ ss) (Memᴰ.head e) = elim (Bool-cases (is_other user_id preserved r)) [
          | inl y ↦ inl y
          | inr n ↦ inr (Memᴰ.head (ground (arith, n, e)))
        ]
        one r (s ∷ ss) (Memᴰ.tail m) = elim (one r ss m) [
          | inl y ↦ inl y
          | inr k ↦ inr (Memᴰ.tail k)
        ]
