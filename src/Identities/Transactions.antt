-- ===== src/Identities/Transactions.antt =====
-- An OAuth transaction is consumed once, by the browser and for the purpose that it was made for.
use mathlib.Core.Path.{subst}
use tabela_pubg.Prelude.{
  ℕ, ◌≡◌, ◌≢◌, refl, sym, ap, ◌∙◌, inl, inr, String, Bool, true, false, ◌||◌, Option, none, some,
  List, [], ◌∷◌, ◌++◌, update, if◌then◌else◌, first, returning, any, arith, ok, Bool-cases, str_eq,
  eq_iff, is_none, All, HasDistinctKeys, HasDistinctKeys-update, HasDistinctKeys-append, any-false,
  find_by, find_by-update, find_by-append, first-returning, only, map_some, touch?, touch,
  update_absent,
}
use tabela_pubg.Identities.{OAuthPurpose, OAuthTransactionRow}
use tabela_pubg.Identities.OAuth.{
  insert_transaction, is_transaction, consume_transaction, consume_oauth_transaction,
}

abbrev pub state_of : OAuthTransactionRow → String
state_of r = r.state_digest

module _ (sha256 : String → String) where
  -- Other transactions are made and consumed.
  pub data Progress (rows : List OAuthTransactionRow) : List OAuthTransactionRow → Type 0 where
    start : Progress rows rows
    created :
        (now later : List OAuthTransactionRow) (row : OAuthTransactionRow)
        → Progress rows now
        → insert_transaction sha256 now row ≡ ok later
        → Progress rows later
    consumed :
        (now later : List OAuthTransactionRow) (state browser : String) (purpose : OAuthPurpose)
        (at : ℕ)
        → Progress rows now
        → later ≡ (consume_oauth_transaction sha256 now state browser purpose at).0
        → Progress rows later

  -- The transaction of a state has been consumed.
  Spent : String → List OAuthTransactionRow → Type 0
  Spent k rows =
      (r : OAuthTransactionRow) × (find_by state_of k rows ≡ some r)
      × (is_none r.consumed_at ≡ false)

  insert_lem :
      (rows rows' : List OAuthTransactionRow) (row : OAuthTransactionRow)
      → insert_transaction sha256 rows row ≡ ok rows'
      → (rows' ≡ rows ++ row ∷ [])
        × (any (λ r. str_eq r.state_digest row.state_digest) rows ≡ false)
  unfolding insert_transaction
  insert_lem rows rows' row e =
      elim (Bool-cases
        (any (λ r. str_eq r.id row.id || str_eq r.state_digest row.state_digest) rows)) [
          | inl y ↦ absurd (cc (rw y at e))
          | inr n ↦ (cc (rw n at e), any-false _ _ rows (λ r h. ground (arith, h)) n)
        ]

  state_of_transaction :
      (state browser : String) (purpose : OAuthPurpose) (at : ℕ) (r : OAuthTransactionRow)
      → is_transaction sha256 state browser purpose at r ≡ true
      → r.state_digest ≡ sha256 state
  unfolding is_transaction
  state_of_transaction state browser purpose at r e =
      ground (arith, eq_iff r.state_digest (sha256 state))

  Spent-Progress :
      {rows rows' : List OAuthTransactionRow} (k : String)
      → Progress rows rows'
      → HasDistinctKeys state_of rows
      → Spent k rows
      → HasDistinctKeys state_of rows' × Spent k rows'
  unfolding Spent consume_oauth_transaction consume_transaction
  Spent-Progress k start d s = (d, s)
  Spent-Progress k (created now later row past e) d s =
      let (d', (r, found, used)) = Spent-Progress k past d s in
      let (appended, fresh) = insert_lem now later row e in
      rw appended (
        HasDistinctKeys-append state_of now row d' fresh,
        (
          r,
          find_by-append state_of k now (row ∷ []) (λ (n : find_by state_of k now ≡ none). cc)
              ∙ found,
          used,
        ),
      )
  Spent-Progress k (consumed now later state browser purpose at past e) d s =
      let (d', (r, found, used)) = Spent-Progress k past d s in
      let held = is_transaction sha256 state browser purpose at in
      rw e (
        HasDistinctKeys-update state_of held (consume_transaction sha256 at) (λ q. refl) now d',
        (
          touch held (consume_transaction sha256 at) r,
          find_by-update state_of held (consume_transaction sha256 at) (λ q. refl) k now
              ∙ ap (touch? held (consume_transaction sha256 at)) found,
          ground (arith, used),
        ),
      )

  consumed_unfit :
      (state browser : String) (purpose : OAuthPurpose) (at : ℕ) (r : OAuthTransactionRow)
      → is_none r.consumed_at ≡ false
      → is_transaction sha256 state browser purpose at r ≡ false
  unfolding is_transaction
  consumed_unfit state browser purpose at r used = ground (arith, used)

  -- No row fits, so none is written.
  update_unfit :
      (p : OAuthTransactionRow → Bool) (f : OAuthTransactionRow → OAuthTransactionRow) (k : String)
      (rows : List OAuthTransactionRow) (r : OAuthTransactionRow)
      → ((q : OAuthTransactionRow) → p q ≡ true → q.state_digest ≡ k)
      → HasDistinctKeys state_of rows
      → find_by state_of k rows ≡ some r
      → p r ≡ false
      → update p f rows ≡ rows
  update_unfit p f k [] r one d found unfit = refl
  update_unfit p f k (q ∷ rows) r one d found unfit = elim (Bool-cases (str_eq q.state_digest k)) [
    | inl y ↦
        let others =
          subst (λ x. All (λ s. s.state_digest ≢ x) rows) ((eq_iff q.state_digest k).0 y) d.0 in
        ground (arith, update_absent state_of p f k one rows others)
    | inr n ↦ ground (arith, one q, eq_iff q.state_digest k, update_unfit p f k rows r one d.1)
  ]

  consumed_again :
      (state browser : String) (purpose : OAuthPurpose) (at : ℕ) (rows : List OAuthTransactionRow)
      → HasDistinctKeys state_of rows
      → Spent (sha256 state) rows
      → consume_oauth_transaction sha256 rows state browser purpose at ≡ (rows, none)
  unfolding consume_oauth_transaction Spent
  consumed_again state browser purpose at rows d (r, found, used) =
      let held = is_transaction sha256 state browser purpose at in
      let set = consume_transaction sha256 at in
      let unfit : held r ≡ false = consumed_unfit state browser purpose at r used in
      let same =
        update_unfit held set (sha256 state) rows r (state_of_transaction state browser purpose at)
          d found unfit in
      let nothing =
        first-returning state_of held (sha256 state) (state_of_transaction state browser purpose at)
          set rows d in
      cc (rw (found, unfit) at nothing, same)

  consumed_row :
      {p : OAuthTransactionRow → Bool} {f : OAuthTransactionRow → OAuthTransactionRow}
      (found : Option OAuthTransactionRow) (row : OAuthTransactionRow)
      → map_some f (only p found) ≡ some row
      → (r : OAuthTransactionRow) × (found ≡ some r) × (p r ≡ true) × (row ≡ f r)
  consumed_row none row e = absurd (cc)
  consumed_row {p = p} {f = f} (some r) row e = elim (Bool-cases (p r)) [
    | inl y ↦
        let got : map_some f (if p r then some r else none) ≡ some row = e in
        (r, refl, y, cc (rw y at got))
    | inr n ↦
        let got : map_some f (if p r then some r else none) ≡ some row = e in
        absurd (cc (rw n at got))
  ]

  -- A consumption of an OAuth transaction that returns a row found an open one: made for that state,
  -- that browser and that purpose, not consumed before and not expired. However transactions are made
  -- and consumed after it, every later consumption of the same state, by whatever browser and for
  -- whatever purpose, returns nothing and writes nothing. The digests of the states are distinct, as
  -- their unique index says.
  pub consume_oauth_transaction_once :
      (rows rows' later : List OAuthTransactionRow) (state browser : String)
      (purpose : OAuthPurpose) (now : ℕ) (row : OAuthTransactionRow)
      → HasDistinctKeys state_of rows
      → consume_oauth_transaction sha256 rows state browser purpose now ≡ (rows', some row)
      → Progress rows' later
      → ((r : OAuthTransactionRow) × (find_by state_of (sha256 state) rows ≡ some r)
          × (is_transaction sha256 state browser purpose now r ≡ true)
          × (row ≡ consume_transaction sha256 now r))
        × ((other : String) (aim : OAuthPurpose) (at : ℕ)
            → consume_oauth_transaction sha256 later state other aim at ≡ (later, none))
  unfolding consume_oauth_transaction consume_transaction Spent
  consume_oauth_transaction_once rows rows' later state browser purpose now row d e after =
      let held = is_transaction sha256 state browser purpose now in
      let set = consume_transaction sha256 now in
      let one = state_of_transaction state browser purpose now in
      let got : first (returning held set rows) ≡ some row = ap (λ x. x.1) e in
      let (r, found, fits, is_row) =
        consumed_row (find_by state_of (sha256 state) rows) row
          (sym (first-returning state_of held (sha256 state) one set rows d) ∙ got) in
      let written : update held set rows ≡ rows' = ap (λ x. x.0) e in
      let spent : Spent (sha256 state) rows' = subst (Spent (sha256 state)) written (
        touch held set r,
        find_by-update state_of held set (λ q. refl) (sha256 state) rows
            ∙ ap (touch? held set) found,
        ground (arith, fits),
      ) in
      let distinct =
        subst (HasDistinctKeys state_of) written
          (HasDistinctKeys-update state_of held set (λ q. refl) rows d) in
      let (d', spent') = Spent-Progress (sha256 state) after distinct spent in
      ((r, found, fits, is_row), λ other aim at. consumed_again state other aim at later d' spent')
