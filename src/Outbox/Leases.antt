-- ===== src/Outbox/Leases.antt =====
-- Who may move an outbox event, and when: leases, acknowledgements and retries.
use native.Mathlib.Nat.{one-le-pow}
use tabela_pubg.Prelude.{
  ℕ, ◌+◌, ◌-◌, ◌*◌, ◌^◌, ◌≤◌, ◌<◌, min, ◌≡◌, ◌≢◌, refl, sym, ◌∙◌, ◌↔◌, String, Bool, true, ◌&&◌,
  Option, none, some, List, [], ◌∷◌, update, returning, length, find_by, HasDistinctKeys,
  find_by-update, find_by-append, ◌++◌, key_of_find_by, touch?, hit, count_of_one, length-returning,
  ok, arith, str_eq, is_text, eq_iff, ◌==◌,
}
use tabela_pubg.Outbox.{
  OutboxStatus, pending, publishing, published, failed, OutboxEventRow, ClaimOutboxBatchInput,
  MarkOutboxPublishedInput, RetryOutboxEventInput, event_id, is_eligible, is_publishing,
  still_ahead, EventEnvelope, append_outbox_event, to_outbox_record, claim_row, claim_outbox_batch,
  is_held, publish_row, mark_outbox_published, assert_integer_in_range,
}
use tabela_pubg.Outbox.Retry.{may_retry, retry_row, retry_delay, check_retry, retry_outbox_event}
use tabela_pubg.Outbox.Claims.{is_claimed, claim_update}

-- The row is held under the token, by a lease that ends at `t`.
abbrev pub IsHeldUntil : String → ℕ → OutboxEventRow → Type 0
IsHeldUntil token t r =
    (r.status ≡ publishing) × (r.claim_token ≡ some token) × (r.lease_expires_at ≡ some t)

-- The same, by a lease that ends later than the time.
abbrev pub IsHeld : String → ℕ → OutboxEventRow → Type 0
IsHeld token now r =
    (r.status ≡ publishing)
    × (r.claim_token ≡ some token)
    × ((t : ℕ) × (r.lease_expires_at ≡ some t) × (now < t))

is_held_iff :
    (id token : String) (now : ℕ) (r : OutboxEventRow)
    → (is_held id token now r ≡ true) ↔ ((r.id ≡ id) × IsHeld token now r)
unfolding is_held
is_held_iff id token now r = (
  λ h. by_columns r.status r.claim_token r.lease_expires_at refl refl refl h,
  λ (e, (s, c, (t, l, b))). backward e s c t l b,
)
  where
    by_columns :
        (s : OutboxStatus) (c : Option String) (l : Option ℕ)
        → r.status ≡ s
        → r.claim_token ≡ c
        → r.lease_expires_at ≡ l
        → (str_eq r.id id && is_publishing s && is_text c token && still_ahead l now) ≡ true
        → (r.id ≡ id) × IsHeld token now r
    by_columns publishing (some c) (some t) es ec el h = (
      ground (arith, eq_iff r.id id),
      (es, ground (arith, eq_iff c token), (t, el, ground arith)),
    )
    by_columns publishing none l es ec el h = absurd (ground arith)
    by_columns publishing (some c) none es ec el h = absurd (ground arith)
    by_columns pending c l es ec el h = absurd (ground arith)
    by_columns published c l es ec el h = absurd (ground arith)
    by_columns failed c l es ec el h = absurd (ground arith)

    backward :
        r.id ≡ id
        → r.status ≡ publishing
        → r.claim_token ≡ some token
        → (t : ℕ) → r.lease_expires_at ≡ some t
        → now < t
        → (str_eq r.id id
            && is_publishing r.status
            && is_text r.claim_token token
            && still_ahead r.lease_expires_at now)
          ≡ true
    backward e s c t l b = ground (arith, eq_iff r.id id, eq_iff token token)

-- What an operation under another token, or a claim before the lease has run out, leaves alone.
module _ (id token : String) (t : ℕ) (r : OutboxEventRow) (rows : List OutboxEventRow)
    (found : find_by event_id id rows ≡ some r) (busy : r.status ≡ publishing)
    (owned : r.claim_token ≡ some token) (leased : r.lease_expires_at ≡ some t) where
  claim_keeps_held :
      (id_le : String → String → Bool) (locked : String → Bool) (input : ClaimOutboxBatchInput)
      (rows' claimed : List OutboxEventRow)
      → HasDistinctKeys event_id rows
      → claim_outbox_batch id_le locked rows input ≡ ok (rows', claimed)
      → input.now < t
      → find_by event_id id rows' ≡ some r
  unfolding is_eligible claim_row
  claim_keeps_held id_le locked input rows' claimed distinct h early =
      let e = (claim_update id_le locked input rows rows' claimed distinct h).0 in
      let keeps : (s : OutboxEventRow) → (claim_row input s).id ≡ s.id = λ s. refl in
      rw
        (
          e,
          find_by-update event_id (is_claimed id_le locked input rows) (claim_row input) keeps id
              rows,
          found,
        )
        (ground arith)

  mark_keeps_held :
      (input : MarkOutboxPublishedInput) (rows' : List OutboxEventRow) (marked : Bool)
      → mark_outbox_published rows input ≡ ok (rows', marked)
      → input.claim_token ≢ token
      → find_by event_id id rows' ≡ some r
  unfolding mark_outbox_published is_held publish_row
  mark_keeps_held input rows' marked h other =
      let held = is_held input.event_id input.claim_token input.published_at in
      let e : rows' ≡ update held (publish_row input.published_at) rows = ground arith in
      rw
        (
          e,
          find_by-update event_id held (publish_row input.published_at) (λ s. refl) id rows,
          found,
        )
        (ground (arith, eq_iff token input.claim_token))

  retry_keeps_held :
      (input : RetryOutboxEventInput) (rows' : List OutboxEventRow) (retried : Bool)
      → retry_outbox_event rows input ≡ ok (rows', retried)
      → input.claim_token ≢ token
      → find_by event_id id rows' ≡ some r
  unfolding retry_outbox_event is_held retry_row
  retry_keeps_held input rows' retried h other =
      let e : rows' ≡ update (may_retry input) (retry_row input) rows = ground arith in
      rw (e, find_by-update event_id (may_retry input) (retry_row input) (λ s. refl) id rows, found)
        (ground (arith, eq_iff token input.claim_token))

-- One operation by others while a lease under the token runs to `t`: an append, a claim before `t`,
-- or an acknowledgement or retry under another token.
pub data OtherStep (id_le : String → String → Bool) (token : String) (t : ℕ)
    (rows rows' : List OutboxEventRow) : Type 0 where
  append :
      (event : EventEnvelope) (available_at : ℕ)
      → append_outbox_event rows event available_at ≡ ok rows'
      → OtherStep id_le token t rows rows'
  claim :
      (locked : String → Bool) (input : ClaimOutboxBatchInput) (claimed : List OutboxEventRow)
      → claim_outbox_batch id_le locked rows input ≡ ok (rows', claimed)
      → input.now < t
      → OtherStep id_le token t rows rows'
  mark :
      (input : MarkOutboxPublishedInput) (marked : Bool)
      → mark_outbox_published rows input ≡ ok (rows', marked)
      → input.claim_token ≢ token
      → OtherStep id_le token t rows rows'
  retry :
      (input : RetryOutboxEventInput) (retried : Bool)
      → retry_outbox_event rows input ≡ ok (rows', retried)
      → input.claim_token ≢ token
      → OtherStep id_le token t rows rows'

-- A row that is being published under a token, by a lease that ends at `t`, is left exactly as it
-- is by every append, every claim made before `t`, and every acknowledgement and retry under
-- another token, in a table with distinct ids.
pub lease_exclusive :
    (id_le : String → String → Bool) (id token : String) (t : ℕ) (r : OutboxEventRow)
    {rows rows' : List OutboxEventRow}
    → HasDistinctKeys event_id rows
    → find_by event_id id rows ≡ some r
    → IsHeldUntil token t r
    → OtherStep id_le token t rows rows'
    → find_by event_id id rows' ≡ some r
unfolding append_outbox_event
lease_exclusive id_le id token t r {rows} {rows'} d f b (append event available_at h) =
    let row = to_outbox_record event available_at in
    let e : rows' ≡ rows ++ row ∷ [] = ground arith in
    rw (e, find_by-append event_id id rows (row ∷ []) (λ n. cc)) f
lease_exclusive id_le id token t r {rows} {rows'} d f b (claim locked input claimed h early) =
    claim_keeps_held id token t r rows f b.0 b.1 b.2 id_le locked input rows' claimed d h early
lease_exclusive id_le id token t r {rows} {rows'} d f b (mark input marked h other) =
    mark_keeps_held id token t r rows f b.0 b.1 b.2 input rows' marked h other
lease_exclusive id_le id token t r {rows} {rows'} d f b (retry input retried h other) =
    retry_keeps_held id token t r rows f b.0 b.1 b.2 input rows' retried h other

one_held :
    (id token : String) (now : ℕ) (set : OutboxEventRow → OutboxEventRow)
    (rows : List OutboxEventRow)
    → HasDistinctKeys event_id rows
    → length (returning (is_held id token now) set rows)
      ≡ hit (is_held id token now) (find_by event_id id rows)
one_held id token now set rows distinct =
    length-returning (is_held id token now) set rows
    ∙ count_of_one event_id (is_held id token now) id (λ r e. ((is_held_iff id token now r).0 e).0)
        rows distinct

-- Acknowledging tells true exactly if the event is held under the token by a lease that has not
-- run out, and then the event is published; in a table with distinct ids.
pub mark_outbox_published_iff :
    (input : MarkOutboxPublishedInput) (rows rows' : List OutboxEventRow) (marked : Bool)
    → HasDistinctKeys event_id rows
    → mark_outbox_published rows input ≡ ok (rows', marked)
    → (marked ≡ true) ↔ (
        (r : OutboxEventRow) × (find_by event_id input.event_id rows ≡ some r)
        × IsHeld input.claim_token input.published_at r
        × (find_by event_id input.event_id rows'
            ≡ some (record r {
              status = published;
              published_at = some input.published_at;
              claim_token = none;
              lease_expires_at = none;
              last_error = none;
            })))
unfolding mark_outbox_published publish_row
mark_outbox_published_iff input rows rows' marked distinct h =
    let held = is_held input.event_id input.claim_token input.published_at in
    let set = publish_row input.published_at in
    let e : rows' ≡ update held set rows = ground arith in
    let number = one_held input.event_id input.claim_token input.published_at set rows distinct in
    let m : marked ≡ (hit held (find_by event_id input.event_id rows) == 1) =
      ground (arith, number) in
    let reading : find_by event_id input.event_id rows'
        ≡ touch? held set (find_by event_id input.event_id rows) =
      rw e (find_by-update event_id held set (λ s. refl) input.event_id rows) in
    (
      λ yes_marked.
          forward (find_by event_id input.event_id rows) refl (sym m ∙ yes_marked) reading,
      λ (r, found, kept, after).
          let fits =
            (is_held_iff input.event_id input.claim_token input.published_at r).1
              (key_of_find_by event_id input.event_id rows r found, kept) in
          ground (arith, m, fits),
    )
  where
    forward :
        (o : Option OutboxEventRow)
        → find_by event_id input.event_id rows ≡ o
        → (hit (is_held input.event_id input.claim_token input.published_at) o == 1) ≡ true
        → find_by event_id input.event_id rows'
          ≡ touch?
              (is_held input.event_id input.claim_token input.published_at)
              (publish_row input.published_at)
              o
        → (r : OutboxEventRow) × (find_by event_id input.event_id rows ≡ some r)
          × IsHeld input.claim_token input.published_at r
          × (find_by event_id input.event_id rows' ≡ some (publish_row input.published_at r))
    forward none found one after = absurd (ground arith)
    forward (some r) found one after =
        let fits : is_held input.event_id input.claim_token input.published_at r ≡ true =
          ground arith in
        (
          r,
          found,
          ((is_held_iff input.event_id input.claim_token input.published_at r).0 fits).1,
          ground arith,
        )

retry_delay_bounds :
    (input : RetryOutboxEventInput) (attempts : ℕ)
    → input.base_retry_ms ≤ input.max_retry_ms
    → (input.base_retry_ms ≤ retry_delay input attempts)
      × (retry_delay input attempts ≤ input.max_retry_ms)
unfolding retry_delay
retry_delay_bounds input attempts h =
    let power : 1 ≤ 2 ^ (attempts - 1) = one-le-pow (attempts - 1) 2 (omega arith) in
    let grown : input.base_retry_ms * 1 ≤ input.base_retry_ms * 2 ^ (attempts - 1) = grind arith in
    (omega (arith, grown), omega arith)

check_retry_bounds :
    (input : RetryOutboxEventInput)
    → check_retry input ≡ ok tt
    → input.base_retry_ms ≤ input.max_retry_ms
unfolding check_retry assert_integer_in_range
check_retry_bounds input h = ground arith

retry_row-id : (input : RetryOutboxEventInput) (r : OutboxEventRow) → (retry_row input r).id ≡ r.id
unfolding retry_row
retry_row-id input r = refl

-- What a retry that tells true has done.
abbrev pub Retried : RetryOutboxEventInput → List OutboxEventRow → List OutboxEventRow → Type 0
Retried input rows rows' =
    (r q : OutboxEventRow) × (find_by event_id input.event_id rows ≡ some r)
    × IsHeld input.claim_token input.now r
    × (r.attempts ≤ input.max_attempts)
    × (find_by event_id input.event_id rows' ≡ some q)
    × (q.status ≡ failed)
    × (q.claim_token ≡ none)
    × (q.lease_expires_at ≡ none)
    × (q.attempts ≡ r.attempts)
    × (q.available_at
        ≡ input.now + min input.max_retry_ms (input.base_retry_ms * 2 ^ (r.attempts - 1)))
    × (input.now + input.base_retry_ms ≤ q.available_at)
    × (q.available_at ≤ input.now + input.max_retry_ms)

Retried-row :
    (input : RetryOutboxEventInput) (rows rows' : List OutboxEventRow) (o : Option OutboxEventRow)
    → find_by event_id input.event_id rows ≡ o
    → hit (may_retry input) o ≡ 1
    → find_by event_id input.event_id rows' ≡ touch? (may_retry input) (retry_row input) o
    → input.base_retry_ms ≤ input.max_retry_ms
    → Retried input rows rows'
unfolding retry_row retry_delay
Retried-row input rows rows' none found one after bounds = absurd (omega arith)
Retried-row input rows rows' (some r) found one after bounds =
    let fits : may_retry input r ≡ true = ground arith in
    let held : is_held input.event_id input.claim_token input.now r ≡ true = ground arith in
    let delay = retry_delay_bounds input r.attempts bounds in
    (
      r,
      retry_row input r,
      found,
      ((is_held_iff input.event_id input.claim_token input.now r).0 held).1,
      ground arith,
      ground arith,
      refl,
      refl,
      refl,
      refl,
      refl,
      omega (arith, delay),
      omega (arith, delay),
    )

-- A retry that tells true was asked for by the holder of the event, while its lease ran and after no
-- more attempts than the maximum; the event is then failed and released with its attempts unchanged,
-- and waits for the base delay doubled once per attempt after the first, between the base and the
-- maximum delay. In a table with distinct ids.
pub retry_outbox_event_backoff :
    (input : RetryOutboxEventInput) (rows rows' : List OutboxEventRow)
    → HasDistinctKeys event_id rows
    → retry_outbox_event rows input ≡ ok (rows', true)
    → Retried input rows rows'
unfolding retry_outbox_event
retry_outbox_event_backoff input rows rows' distinct h =
    let checked : check_retry input ≡ ok tt = ground arith in
    let e : rows' ≡ update (may_retry input) (retry_row input) rows = ground arith in
    let number =
      length-returning (may_retry input) (retry_row input) rows
      ∙ count_of_one event_id (may_retry input) input.event_id
          (λ r k. ((is_held_iff input.event_id input.claim_token input.now r).0 (ground arith)).0)
          rows distinct in
    let reading : find_by event_id input.event_id rows'
        ≡ touch? (may_retry input) (retry_row input) (find_by event_id input.event_id rows) =
      rw e (
        find_by-update event_id (may_retry input) (retry_row input) (retry_row-id input)
          input.event_id rows) in
    Retried-row input rows rows' (find_by event_id input.event_id rows) refl
      (ground (arith, number)) reading (check_retry_bounds input checked)
