-- ===== src/Sessions/Promotions.antt =====
-- packages/database/src/repositories/sessions.ts: a promotion, the new token and the end of the other
-- sessions, in the order in which the code of a provisional sign-in runs them.
use tabela_pubg.Prelude.{
  ℕ, ◌≡◌, refl, sym, ap, ◌∙◌, inl, inr, String, Bool, true, false, Option, none, some, List, update,
  returning, first, count, arith, ok, Bool-cases, eq_iff, is_some, HasDistinctKeys,
  HasDistinctKeys-update, find_by, find_by-update, first-returning, only, map_some, if◌then◌else◌,
  touch?,
}
use tabela_pubg.Sessions.{
  SessionRow, session_id, is_trusted, is_live, is_session, promote_row, may_promote, may_replace,
  write_token, is_other, revoke_row, revoke_other_sessions, promote_provisional_session_trust,
}
use tabela_pubg.Sessions.Issue.{replace_row, replace_active_session_token}
use tabela_pubg.Sessions.Rotations.{revoke_other_sessions_lem}

-- A provisional session has become a trusted one with a new token, and is the user's only one.
pub record Promoted (digest : String → String) (rows rows' : List SessionRow)
    (user_id id token : String) (now : ℕ) : Type 0 where
  pub earlier : SessionRow
  pub found : find_by session_id id rows ≡ some earlier
  pub owned : earlier.user_id ≡ user_id
  pub provisional : is_trusted earlier.trust ≡ false
  pub live : is_live now earlier ≡ true
  pub upgraded : SessionRow
  pub found_after : find_by session_id id rows' ≡ some upgraded
  pub owned_after : upgraded.user_id ≡ user_id
  pub trusted_after : is_trusted upgraded.trust ≡ true
  pub token_after : upgraded.token_digest ≡ digest token
  pub confirmed_after : upgraded.reauthenticated_at ≡ some now
  pub only_one : count (is_other user_id id) rows' ≡ 0

-- A write of one row that returns one has found it by its key.
returned :
    (p : SessionRow → Bool) (f : SessionRow → SessionRow) (id : String) (rows : List SessionRow)
    → ((r : SessionRow) → p r ≡ true → r.id ≡ id)
    → HasDistinctKeys session_id rows
    → is_some (first (returning p f rows)) ≡ true
    → (r : SessionRow) × (find_by session_id id rows ≡ some r) × (p r ≡ true)
returned p f id rows one d e =
    met (find_by session_id id rows)
      (ap is_some (sym (first-returning session_id p id one f rows d)) ∙ e)
  where
    met :
        (o : Option SessionRow)
        → is_some (map_some f (only p o)) ≡ true
        → (r : SessionRow) × (o ≡ some r) × (p r ≡ true)
    met none h = absurd (cc)
    met (some r) h = elim (Bool-cases (p r)) [
      | inl y ↦ (r, refl, y)
      | inr n ↦
          let seen : is_some (map_some f (if p r then some r else none)) ≡ true = h in
          absurd (cc (rw n at seen))
    ]

id_of_may_promote :
    (user_id id : String) (now : ℕ) (r : SessionRow)
    → may_promote user_id id now r ≡ true
    → (r.id ≡ id) × (r.user_id ≡ user_id) × (is_trusted r.trust ≡ false) × (is_live now r ≡ true)
unfolding may_promote is_session
id_of_may_promote user_id id now r e = (
  ground (arith, eq_iff r.id id),
  ground (arith, eq_iff r.user_id user_id),
  ground arith,
  ground arith,
)

id_of_may_replace :
    (user_id id : String) (now : ℕ) (r : SessionRow)
    → may_replace user_id id now r ≡ true
    → r.id ≡ id
unfolding may_replace is_session
id_of_may_replace user_id id now r e = ground (arith, eq_iff r.id id)

preserved_is_no_other :
    (user_id id : String) (r : SessionRow) → r.id ≡ id → is_other user_id id r ≡ false
unfolding is_other
preserved_is_no_other user_id id r e = ground (arith, eq_iff r.id id)

-- Reading the row that a write has found.
written_row :
    (p : SessionRow → Bool) (f : SessionRow → SessionRow) (id : String) (rows : List SessionRow)
    (r : SessionRow) (b : Bool)
    → ((q : SessionRow) → (f q).id ≡ q.id)
    → find_by session_id id rows ≡ some r
    → p r ≡ b
    → find_by session_id id (update p f rows) ≡ some (if b then f r else r)
written_row p f id rows r b keeps found fits =
    find_by-update session_id p f keeps id rows
    ∙ ap (touch? p f) found
    ∙ ap (λ x. some (if x then f r else r)) fits

replaced_rows :
    (digest : String → String) (rows : List SessionRow) (user_id id token : String) (now : ℕ)
    (written : List SessionRow × Bool)
    → replace_active_session_token digest rows user_id id token now ≡ ok written
    → (written.0 ≡ update (may_replace user_id id now) (replace_row digest token now) rows)
      × (written.1
          ≡ is_some
              (first (returning (may_replace user_id id now) (replace_row digest token now) rows)))
unfolding replace_active_session_token write_token
replaced_rows digest rows user_id id token now written e = ground arith

module _ (digest : String → String) (rows : List SessionRow) (user_id id token : String) (now : ℕ)
    (distinct : HasDistinctKeys session_id rows) where
  -- The three statements on the sessions.
  pub promote_one :
      (written : List SessionRow × Bool)
      → (promote_provisional_session_trust rows user_id id now).1 ≡ true
      → replace_active_session_token digest
          (promote_provisional_session_trust rows user_id id now).0
          user_id
          id
          token
          now
        ≡ ok written
      → written.1 ≡ true
      → Promoted digest rows
          (revoke_other_sessions written.0 user_id id "identity-link" now).0
          user_id
          id
          token
          now
  unfolding promote_provisional_session_trust replace_active_session_token write_token replace_row
      promote_row revoke_other_sessions revoke_row
  promote_one written e k w =
      let (r, found, fits) =
        returned (may_promote user_id id now) (promote_row now) id rows
          (λ q h. (id_of_may_promote user_id id now q h).0) distinct e in
      let (named, owned, provisional, live) = id_of_may_promote user_id id now r fits in
      let rows1 = update (may_promote user_id id now) (promote_row now) rows in
      let distinct1 =
        HasDistinctKeys-update session_id (may_promote user_id id now) (promote_row now) (λ q. refl)
          rows distinct in
      let found1 =
        written_row (may_promote user_id id now) (promote_row now) id rows r true (λ q. refl) found
          fits in
      let (same, told) = replaced_rows digest rows1 user_id id token now written k in
      let (q, found_q, fits_q) =
        returned (may_replace user_id id now) (replace_row digest token now) id rows1
          (id_of_may_replace user_id id now) distinct1 (sym told ∙ w) in
      let same_row : q ≡ promote_row now r = ground (arith, found1, found_q) in
      let final = replace_row digest token now q in
      let found2 =
        written_row (may_replace user_id id now) (replace_row digest token now) id rows1 q true
          (λ x. refl) found_q fits_q in
      let apart : is_other user_id id final ≡ false =
        preserved_is_no_other user_id id final (id_of_may_replace user_id id now q fits_q) in
      let found3 =
        written_row (is_other user_id id) (revoke_row "identity-link" now) id written.0 final false
          (λ x. refl) (ap (find_by session_id id) same ∙ found2) apart in
      record {
        earlier = r;
        found = found;
        owned = owned;
        provisional = provisional;
        live = live;
        upgraded = final;
        found_after = found3;
        owned_after = ap (λ x. x.user_id) same_row ∙ owned;
        trusted_after = ap (λ x. is_trusted x.trust) same_row;
        token_after = refl;
        confirmed_after = ap (λ x. x.reauthenticated_at) same_row;
        only_one = (revoke_other_sessions_lem written.0 user_id id "identity-link" now).1;
      }
