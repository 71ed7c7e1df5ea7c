-- ===== src/Outbox/Claims.antt =====
-- Which rows a claim takes: only eligible ones that nobody has locked.
use mathlib.Core.List.{Memᴰ}
use mathlib.Core.Path.{subst}
use tabela_pubg.Prelude.{
  ℕ, ◌+◌, ◌≤◌, ◌<◌, ◌≡◌, refl, ap, String, Bool, true, false, not, ◌&&◌, Option, none, some, List,
  [], ◌∷◌, map, take, select, update, returning, All, HasDistinctKeys, Memᴰ-select, Memᴰ-take,
  Memᴰ_of_key, eq_of_key, All-of_Memᴰ, update-congr, returning-congr, ok, arith, if◌then◌else◌, ◌⊎◌,
  inl, inr, ◌||◌, leb, length, length-map, length-take, Memᴰ-returning, length-returning,
  count_of_keys-le,
}
use tabela_pubg.Outbox.{
  OutboxStatus, pending, publishing, published, failed, is_waiting, is_publishing, reached,
  OutboxEventRow, ClaimOutboxBatchInput, event_id, is_eligible, comes_before, insert_in_order,
  in_order, eligible_ids, is_among, claim_row, claim_outbox_batch,
}

module _ (id_le : String → String → Bool) where
  Memᴰ-insert_in_order :
      (s : OutboxEventRow) (rs : List OutboxEventRow) (r : OutboxEventRow)
      → Memᴰ r (insert_in_order id_le s rs)
      → Memᴰ r (s ∷ rs)
  unfolding insert_in_order
  Memᴰ-insert_in_order s [] r m = m
  Memᴰ-insert_in_order s (t ∷ rs) r m =
      split (Memᴰ-insert_in_order s rs r) (comes_before id_le s t) m
    where
      split :
          (Memᴰ r (insert_in_order id_le s rs) → Memᴰ r (s ∷ rs))
          → (b : Bool) → Memᴰ r (if b then s ∷ t ∷ rs else t ∷ insert_in_order id_le s rs)
          → Memᴰ r (s ∷ t ∷ rs)
      split ih true h = h
      split ih false (Memᴰ.head e) = Memᴰ.tail (Memᴰ.head e)
      split ih false (Memᴰ.tail h) = second (ih h)
        where
          second : Memᴰ r (s ∷ rs) → Memᴰ r (s ∷ t ∷ rs)
          second (Memᴰ.head e) = Memᴰ.head e
          second (Memᴰ.tail k) = Memᴰ.tail (Memᴰ.tail k)

  Memᴰ-in_order :
      (rs : List OutboxEventRow) (r : OutboxEventRow) → Memᴰ r (in_order id_le rs) → Memᴰ r rs
  unfolding in_order
  Memᴰ-in_order [] r m = m
  Memᴰ-in_order (s ∷ rs) r m =
      split (Memᴰ-insert_in_order s (in_order id_le rs) r m) (Memᴰ-in_order rs r)
    where
      split :
          Memᴰ r (s ∷ in_order id_le rs)
          → (Memᴰ r (in_order id_le rs) → Memᴰ r rs)
          → Memᴰ r (s ∷ rs)
      split (Memᴰ.head e) ih = Memᴰ.head e
      split (Memᴰ.tail h) ih = Memᴰ.tail (ih h)

  -- A row of the table whose id is among the eligible ones is itself eligible and free.
  pub eligible_of_among :
      (locked : String → Bool) (input : ClaimOutboxBatchInput) (rows : List OutboxEventRow)
      (r : OutboxEventRow)
      → HasDistinctKeys event_id rows
      → Memᴰ r rows
      → is_among (eligible_ids id_le locked input rows) r ≡ true
      → (is_eligible input r ≡ true) × (locked r.id ≡ false)
  unfolding eligible_ids
  eligible_of_among locked input rows r distinct m h =
      let chosen = in_order id_le (select (λ s. is_eligible input s && not (locked s.id)) rows) in
      let (q, mq, same) = Memᴰ_of_key event_id r.id (take input.batch_size chosen) h in
      let (free, mq') =
        Memᴰ-select _ rows q (Memᴰ-in_order _ q (Memᴰ-take input.batch_size chosen q mq)) in
      let e : q ≡ r = eq_of_key event_id q r rows distinct mq' m same in
      (ground arith, ground arith)

  -- The condition of the claim's update, with what the row satisfies said too.
  abbrev pub is_claimed :
      (String → Bool) → ClaimOutboxBatchInput → List OutboxEventRow → OutboxEventRow → Bool
  is_claimed locked input rows r =
      is_eligible input r && not (locked r.id) && is_among (eligible_ids id_le locked input rows) r

  pub claim_update :
      (locked : String → Bool) (input : ClaimOutboxBatchInput)
      (rows rows' claimed : List OutboxEventRow)
      → HasDistinctKeys event_id rows
      → claim_outbox_batch id_le locked rows input ≡ ok (rows', claimed)
      → (rows' ≡ update (is_claimed locked input rows) (claim_row input) rows)
        × (claimed ≡ returning (is_claimed locked input rows) (claim_row input) rows)
  unfolding claim_outbox_batch
  claim_update locked input rows rows' claimed distinct h =
      let ids = eligible_ids id_le locked input rows in
      let same : All (λ r. is_among ids r ≡ is_claimed locked input rows r) rows =
        All-of_Memᴰ _ rows agree in
      (
        ground (
          arith,
          update-congr (is_among ids) (is_claimed locked input rows) (claim_row input) rows same,
        ),
        ground (
          arith,
          returning-congr (is_among ids) (is_claimed locked input rows) (claim_row input) rows same,
        ),
      )
    where
      agree :
          (r : OutboxEventRow)
          → Memᴰ r rows
          → is_among (eligible_ids id_le locked input rows) r ≡ is_claimed locked input rows r
      agree r m = ground (arith, eligible_of_among locked input rows r distinct m)

-- What the claim asks of a row, in the words of the query.
abbrev pub Eligible : ClaimOutboxBatchInput → OutboxEventRow → Type 0
Eligible input r =
    (r.attempts < input.max_attempts)
    × (((r.status ≡ pending) × (r.available_at ≤ input.now))
        ⊎ ((r.status ≡ failed) × (r.available_at ≤ input.now))
        ⊎ ((r.status ≡ publishing) × ((t : ℕ) × (r.lease_expires_at ≡ some t) × (t ≤ input.now))))

Eligible-of_is_eligible :
    (input : ClaimOutboxBatchInput) (r : OutboxEventRow)
    → is_eligible input r ≡ true
    → Eligible input r
unfolding is_eligible
Eligible-of_is_eligible input r h =
    (ground arith, by_status r.status r.lease_expires_at refl refl (ground arith))
  where
    by_status :
        (s : OutboxStatus) (lease : Option ℕ)
        → r.status ≡ s
        → r.lease_expires_at ≡ lease
        → ((is_waiting s && leb r.available_at input.now)
            || (is_publishing s && reached lease input.now))
          ≡ true
        → ((r.status ≡ pending) × (r.available_at ≤ input.now))
          ⊎ ((r.status ≡ failed) × (r.available_at ≤ input.now))
          ⊎ ((r.status ≡ publishing) × ((t : ℕ) × (r.lease_expires_at ≡ some t) × (t ≤ input.now)))
    by_status pending lease e f k = inl (e, ground arith)
    by_status failed lease e f k = inr (inl (e, ground arith))
    by_status publishing (some t) e f k = inr (inr (e, (t, f, ground arith)))
    by_status publishing none e f k = absurd (cc)
    by_status published lease e f k = absurd (cc)

length-take-map : (n : ℕ) (rs : List OutboxEventRow) → length (map event_id (take n rs)) ≤ n
length-take-map n rs = omega (arith, length-map (take n rs) event_id, length-take n rs)

claim_bound :
    (id_le : String → String → Bool) (locked : String → Bool) (input : ClaimOutboxBatchInput)
    (rows rows' claimed : List OutboxEventRow)
    → HasDistinctKeys event_id rows
    → claim_outbox_batch id_le locked rows input ≡ ok (rows', claimed)
    → length claimed ≤ input.batch_size
unfolding claim_outbox_batch eligible_ids
claim_bound id_le locked input rows rows' claimed distinct h =
    let chosen = in_order id_le (select (λ s. is_eligible input s && not (locked s.id)) rows) in
    let ids = map event_id (take input.batch_size chosen) in
    let e : claimed ≡ returning (is_among ids) (claim_row input) rows = ground arith in
    omega (
      arith,
      ap length e,
      length-returning (is_among ids) (claim_row input) rows,
      count_of_keys-le event_id ids rows distinct,
      length-take-map input.batch_size chosen,
    )

-- A successful claim on a table with distinct ids returns at most `batchSize` rows; each of them is
-- a row of the table that was eligible and not locked by another transaction, now held under the
-- claim's token and lease with one attempt more.
pub claim_outbox_batch_claimed :
    (id_le : String → String → Bool) (locked : String → Bool) (input : ClaimOutboxBatchInput)
    (rows rows' claimed : List OutboxEventRow)
    → HasDistinctKeys event_id rows
    → claim_outbox_batch id_le locked rows input ≡ ok (rows', claimed)
    → (length claimed ≤ input.batch_size)
      × All
          (λ q.
            (r : OutboxEventRow) × Memᴰ r rows
            × Eligible input r
            × (locked r.id ≡ false)
            × (q ≡ record r {
              status = publishing;
              attempts = r.attempts + 1;
              claim_token = some input.claim_token;
              lease_expires_at = some (input.now + input.lease_ms);
              last_error = none;
            }))
          claimed
unfolding claim_row
claim_outbox_batch_claimed id_le locked input rows rows' claimed distinct h =
    (claim_bound id_le locked input rows rows' claimed distinct h, All-of_Memᴰ _ claimed each)
  where
    each :
        (q : OutboxEventRow)
        → Memᴰ q claimed
        → (r : OutboxEventRow) × Memᴰ r rows
          × Eligible input r
          × (locked r.id ≡ false)
          × (q ≡ claim_row input r)
    each q m =
        let e = (claim_update id_le locked input rows rows' claimed distinct h).1 in
        let (r, mr, taken, same) = Memᴰ-returning _ (claim_row input) rows q (subst (Memᴰ q) e m) in
        (r, mr, Eligible-of_is_eligible input r (ground arith), ground arith, same)
