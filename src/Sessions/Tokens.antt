-- ===== src/Sessions/Tokens.antt =====
-- The unique token digests: a write of a digest to one session keeps them distinct.
use tabela_pubg.Prelude.{
  ◌≡◌, ◌≢◌, refl, sym, String, Bool, true, false, not, ◌&&◌, List, [], ◌∷◌, any, update, returning,
  All, HasDistinctKeys, arith, eq_iff, inl, inr, Bool-cases, str_eq, ok, ◌⊎◌,
}
use mathlib.Core.Path.{subst}
use tabela_pubg.Sessions.{SessionRow, session_id, token_of, write_token}

module _ (where_ : SessionRow → Bool) (set : SessionRow → SessionRow) (id token_digest : String)
    (one_id : (r : SessionRow) → where_ r ≡ true → r.id ≡ id)
    (sets : (r : SessionRow) → (set r).token_digest ≡ token_digest) where
  untouched :
      (rows : List SessionRow) → All (λ s. session_id s ≢ id) rows → update where_ set rows ≡ rows
  untouched [] h = refl
  untouched (r ∷ rs) h = elim (Bool-cases (where_ r)) [
    | inl e ↦ absurd (h.0 (one_id r e))
    | inr e ↦ rw (e, untouched rs h.1) refl
  ]

  -- another row than those written to has the digest
  abbrev taken : SessionRow → Bool
  taken r = not (where_ r) && str_eq r.token_digest token_digest

  free_rest :
      (rows : List SessionRow)
      → All (λ s. session_id s ≢ id) rows
      → any taken rows ≡ false
      → All (λ s. token_of s ≢ token_digest) rows
  free_rest [] h e = tt
  free_rest (r ∷ rs) h e = (
    λ same. elim (Bool-cases (where_ r)) [
      | inl k ↦ absurd (h.0 (one_id r k))
      | inr k ↦ ground (arith, eq_iff r.token_digest token_digest)
    ],
    free_rest rs h.1 (ground arith),
  )

  away :
      (t : String) (rows : List SessionRow)
      → t ≢ token_digest
      → All (λ s. token_of s ≢ t) rows
      → All (λ s. token_of s ≢ t) (update where_ set rows)
  away t [] n h = tt
  away t (r ∷ rs) n h = (
    elim (Bool-cases (where_ r)) [
      | inl k ↦ rw k (λ same. n (ground (arith, sets r)))
      | inr k ↦ rw k h.0
    ],
    away t rs n h.1,
  )

  distinct_after :
      (rows : List SessionRow)
      → HasDistinctKeys session_id rows
      → HasDistinctKeys token_of rows
      → any taken rows ≡ false
      → HasDistinctKeys token_of (update where_ set rows)
  distinct_after [] i h e = tt
  distinct_after (r ∷ rs) i h e = elim (Bool-cases (where_ r)) [
    | inl k ↦
        let others = subst (λ x. All (λ s. session_id s ≢ x) rs) (one_id r k) i.0 in
        rw (k, untouched rs others)
          (
            subst (λ x. All (λ s. token_of s ≢ x) rs) (sym (sets r))
                (free_rest rs others (ground arith)),
            h.1,
          )
    | inr k ↦ rw k (
      away r.token_digest rs (λ same. ground (arith, eq_iff r.token_digest token_digest)) h.0,
      distinct_after rs i.1 h.1 (ground arith),
    )
  ]

  untaken : (rows : List SessionRow) → any where_ rows ≡ false → update where_ set rows ≡ rows
  untaken [] e = refl
  untaken (r ∷ rs) e = ground (arith, untaken rs)

  -- What a write of a digest that succeeds has done.
  pub write_token_lem :
      (rows rows' written : List SessionRow)
      → HasDistinctKeys session_id rows
      → HasDistinctKeys token_of rows
      → write_token where_ set token_digest rows ≡ ok (rows', written)
      → (rows' ≡ update where_ set rows)
        × (written ≡ returning where_ set rows)
        × HasDistinctKeys token_of rows'
  unfolding write_token
  write_token_lem rows rows' written i h e =
      let same : rows' ≡ update where_ set rows = ground arith in
      let answer : written ≡ returning where_ set rows = ground arith in
      (
        same,
        answer,
        subst (HasDistinctKeys token_of) (sym same) (kept (Bool-cases (any where_ rows))),
      )
    where
      kept :
          (any where_ rows ≡ true) ⊎ (any where_ rows ≡ false)
          → HasDistinctKeys token_of (update where_ set rows)
      kept (inl k) = distinct_after rows i h (ground arith)
      kept (inr k) = rw (untaken rows k) h
