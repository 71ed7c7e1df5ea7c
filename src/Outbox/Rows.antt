-- ===== src/Outbox/Rows.antt =====
-- The outbox table over any history of appends, claims, acknowledgements and retries: what every
-- row satisfies, and what never changes again.
use mathlib.Core.Path.{subst}
use tabela_pubg.Prelude.{
  ℕ, ◌≤◌, ◌<◌, ◌≡◌, ◌≢◌, refl, inl, inr, String, Bool, true, none, some, List, [], ◌∷◌, update, All,
  find_by, HasDistinctKeys, HasDistinctKeys-update, HasDistinctKeys-append, All-update_of,
  All-append_of, find_by-update, find_by-append, ok, arith, Bool-cases, sym, ◌++◌,
}
use tabela_pubg.Outbox.Claims.{is_claimed, claim_update}
use tabela_pubg.Outbox.{
  OutboxStatus, pending, publishing, published, failed, OutboxEventRow, EventEnvelope,
  ClaimOutboxBatchInput, MarkOutboxPublishedInput, RetryOutboxEventInput, event_id,
  to_outbox_record, append_outbox_event, is_eligible, claim_row, claim_outbox_batch, is_held,
  publish_row, mark_outbox_published,
}
use tabela_pubg.Outbox.Retry.{may_retry, retry_row, retry_outbox_event}

-- One operation that succeeds. Times, tokens, limits and the rows that others have locked are
-- whatever the callers and the database choose.
pub data Step (id_le : String → String → Bool) (rows rows' : List OutboxEventRow) : Type 0 where
  append :
      (event : EventEnvelope) (available_at : ℕ)
      → append_outbox_event rows event available_at ≡ ok rows'
      → Step id_le rows rows'
  claim :
      (locked : String → Bool) (input : ClaimOutboxBatchInput) (claimed : List OutboxEventRow)
      → claim_outbox_batch id_le locked rows input ≡ ok (rows', claimed)
      → Step id_le rows rows'
  mark :
      (input : MarkOutboxPublishedInput) (marked : Bool)
      → mark_outbox_published rows input ≡ ok (rows', marked)
      → Step id_le rows rows'
  retry :
      (input : RetryOutboxEventInput) (retried : Bool)
      → retry_outbox_event rows input ≡ ok (rows', retried)
      → Step id_le rows rows'

pub data Reach (id_le : String → String → Bool) (rows : List OutboxEventRow)
    : List OutboxEventRow → Type 0 where
  here : Reach id_le rows rows
  next :
      {mid last : List OutboxEventRow}
      → Reach id_le rows mid
      → Step id_le mid last
      → Reach id_le rows last

-- What the columns of a row say of one another.
abbrev pub Fits : OutboxStatus → OutboxEventRow → Type 0
Fits pending r =
    (r.claim_token ≡ none)
    × (r.lease_expires_at ≡ none)
    × (r.published_at ≡ none)
    × (r.attempts ≡ 0)
Fits publishing r =
    (r.claim_token ≢ none)
    × (r.lease_expires_at ≢ none)
    × (r.published_at ≡ none)
    × (0 < r.attempts)
Fits published r =
    (r.claim_token ≡ none)
    × (r.lease_expires_at ≡ none)
    × (r.published_at ≢ none)
    × (0 < r.attempts)
Fits failed r =
    (r.claim_token ≡ none)
    × (r.lease_expires_at ≡ none)
    × (r.published_at ≡ none)
    × (0 < r.attempts)

abbrev pub IsConsistent : OutboxEventRow → Type 0
IsConsistent r = Fits r.status r

pub record IsWellFormed (rows : List OutboxEventRow) : Type 0 where
  pub distinct : HasDistinctKeys event_id rows
  pub consistent : All IsConsistent rows

-- An operation other than an insert is an update that keeps the ids, keeps the columns consistent,
-- touches no published row and takes no attempt back.
pub record Edit (rows rows' : List OutboxEventRow) : Type 0 where
  pub where_ : OutboxEventRow → Bool
  pub set : OutboxEventRow → OutboxEventRow
  pub same : rows' ≡ update where_ set rows
  pub keeps_id : (r : OutboxEventRow) → (set r).id ≡ r.id
  pub fits : (r : OutboxEventRow) → where_ r ≡ true → IsConsistent r → IsConsistent (set r)
  pub unpublished : (r : OutboxEventRow) → where_ r ≡ true → r.status ≢ published
  pub attempts_grow : (r : OutboxEventRow) → r.attempts ≤ (set r).attempts

pub claim-Edit :
    (id_le : String → String → Bool) (locked : String → Bool) (input : ClaimOutboxBatchInput)
    (rows rows' claimed : List OutboxEventRow)
    → IsWellFormed rows
    → claim_outbox_batch id_le locked rows input ≡ ok (rows', claimed)
    → Edit rows rows'
unfolding claim_row is_eligible
claim-Edit id_le locked input rows rows' claimed w h = record {
  where_ = is_claimed id_le locked input rows;
  set = claim_row input;
  same = (claim_update id_le locked input rows rows' claimed w.distinct h).0;
  keeps_id = λ r. refl;
  fits = λ r e c. fits r r.status refl (ground arith) c;
  unpublished = λ r e s. ground arith;
  attempts_grow = λ r. omega arith;
}
  where
    fits :
        (r : OutboxEventRow) (s : OutboxStatus)
        → r.status ≡ s
        → s ≢ published
        → Fits s r
        → IsConsistent (claim_row input r)
    fits r pending e n c = (λ x. cc, λ x. cc, c.2, omega arith)
    fits r failed e n c = (λ x. cc, λ x. cc, c.2, omega arith)
    fits r publishing e n c = (λ x. cc, λ x. cc, c.2, omega arith)
    fits r published e n c = absurd (n refl)

pub mark-Edit :
    (input : MarkOutboxPublishedInput) (rows rows' : List OutboxEventRow) (marked : Bool)
    → mark_outbox_published rows input ≡ ok (rows', marked)
    → Edit rows rows'
unfolding mark_outbox_published is_held publish_row
mark-Edit input rows rows' marked h = record {
  where_ = is_held input.event_id input.claim_token input.published_at;
  set = publish_row input.published_at;
  same = ground arith;
  keeps_id = λ r. refl;
  fits = λ r e c. fits r r.status refl (ground arith) c;
  unpublished = λ r e s. ground arith;
  attempts_grow = λ r. omega arith;
}
  where
    fits :
        (r : OutboxEventRow) (s : OutboxStatus)
        → r.status ≡ s
        → s ≡ publishing
        → Fits s r
        → IsConsistent (publish_row input.published_at r)
    fits r publishing e n c = (refl, refl, λ x. cc, c.3)
    fits r _ e n c = absurd (cc)

pub retry-Edit :
    (input : RetryOutboxEventInput) (rows rows' : List OutboxEventRow) (retried : Bool)
    → retry_outbox_event rows input ≡ ok (rows', retried)
    → Edit rows rows'
unfolding retry_outbox_event is_held retry_row
retry-Edit input rows rows' retried h = record {
  where_ = may_retry input;
  set = retry_row input;
  same = ground arith;
  keeps_id = λ r. refl;
  fits = λ r e c. fits r r.status refl (ground arith) c;
  unpublished = λ r e s. ground arith;
  attempts_grow = λ r. omega arith;
}
  where
    fits :
        (r : OutboxEventRow) (s : OutboxStatus)
        → r.status ≡ s
        → s ≡ publishing
        → Fits s r
        → IsConsistent (retry_row input r)
    fits r publishing e n c = (refl, refl, c.2, c.3)
    fits r _ e n c = absurd (cc)

Edit-IsWellFormed :
    {rows rows' : List OutboxEventRow} → Edit rows rows' → IsWellFormed rows → IsWellFormed rows'
Edit-IsWellFormed {rows} {rows'} d w = subst IsWellFormed (sym d.same) (record {
  distinct = HasDistinctKeys-update event_id d.where_ d.set d.keeps_id rows w.distinct;
  consistent = All-update_of IsConsistent d.where_ d.set rows d.fits w.consistent;
})

append-IsWellFormed :
    (rows rows' : List OutboxEventRow) (event : EventEnvelope) (available_at : ℕ)
    → IsWellFormed rows
    → append_outbox_event rows event available_at ≡ ok rows'
    → IsWellFormed rows'
unfolding append_outbox_event to_outbox_record
append-IsWellFormed rows rows' event available_at w h =
    let row = to_outbox_record event available_at in
    let e : rows' ≡ rows ++ row ∷ [] = ground arith in
    subst IsWellFormed (sym e) (record {
      distinct = HasDistinctKeys-append event_id rows row w.distinct (ground arith);
      consistent =
          All-append_of IsConsistent rows (row ∷ []) w.consistent ((refl, refl, refl, refl), tt);
    })

step-IsWellFormed :
    {id_le : String → String → Bool} {rows rows' : List OutboxEventRow}
    → Step id_le rows rows'
    → IsWellFormed rows
    → IsWellFormed rows'
step-IsWellFormed {rows = rows} {rows' = rows'} (append event available_at h) w =
    append-IsWellFormed rows rows' event available_at w h
step-IsWellFormed {id_le} {rows = rows} {rows' = rows'} (claim locked input claimed h) w =
    Edit-IsWellFormed (claim-Edit id_le locked input rows rows' claimed w h) w
step-IsWellFormed {rows = rows} {rows' = rows'} (mark input marked h) w =
    Edit-IsWellFormed (mark-Edit input rows rows' marked h) w
step-IsWellFormed {rows = rows} {rows' = rows'} (retry input retried h) w =
    Edit-IsWellFormed (retry-Edit input rows rows' retried h) w

-- Over any history of operations, from a well-formed table such as the empty one: the ids stay
-- distinct, exactly the publishing rows carry a claim token and a lease, exactly the published rows
-- a publication time, and only pending rows have not been tried.
pub Reach-IsWellFormed :
    (id_le : String → String → Bool) {rows rows' : List OutboxEventRow}
    → IsWellFormed rows
    → Reach id_le rows rows'
    → IsWellFormed rows'
Reach-IsWellFormed id_le w here = w
Reach-IsWellFormed id_le w (next r s) = step-IsWellFormed s (Reach-IsWellFormed id_le w r)

Edit-published :
    {rows rows' : List OutboxEventRow} (id : String) (r : OutboxEventRow)
    → Edit rows rows'
    → find_by event_id id rows ≡ some r
    → r.status ≡ published
    → find_by event_id id rows' ≡ some r
Edit-published {rows} {rows'} id r d found final =
    let reading = find_by-update event_id d.where_ d.set d.keeps_id id rows in
    rw (d.same, reading, found)
      (elim (Bool-cases (d.where_ r)) [ inl e ↦ absurd (d.unpublished r e final) | inr e ↦ rw e ])

step-published :
    {id_le : String → String → Bool} {rows rows' : List OutboxEventRow} (id : String)
    (r : OutboxEventRow)
    → IsWellFormed rows
    → Step id_le rows rows'
    → find_by event_id id rows ≡ some r
    → r.status ≡ published
    → find_by event_id id rows' ≡ some r
unfolding append_outbox_event
step-published {rows = rows} {rows' = rows'} id r w (append event available_at h) found final =
    let row = to_outbox_record event available_at in
    let e : rows' ≡ rows ++ row ∷ [] = ground arith in
    rw (e, find_by-append event_id id rows (row ∷ []) (λ n. cc)) found
step-published {id_le} {rows = rows} {rows' = rows'} id r w (claim locked input claimed h) found
      final =
    Edit-published id r (claim-Edit id_le locked input rows rows' claimed w h) found final
step-published {rows = rows} {rows' = rows'} id r w (mark input marked h) found final =
    Edit-published id r (mark-Edit input rows rows' marked h) found final
step-published {rows = rows} {rows' = rows'} id r w (retry input retried h) found final =
    Edit-published id r (retry-Edit input rows rows' retried h) found final

-- A published event stays in the table as it is, whatever operations follow, so it is never claimed
-- again. From a well-formed table.
pub Reach-published :
    (id_le : String → String → Bool) (id : String) (r : OutboxEventRow)
    {rows rows' : List OutboxEventRow}
    → IsWellFormed rows
    → Reach id_le rows rows'
    → find_by event_id id rows ≡ some r
    → r.status ≡ published
    → find_by event_id id rows' ≡ some r
Reach-published id_le id r w here found final = found
Reach-published id_le id r w (next path s) found final =
    step-published id r (Reach-IsWellFormed id_le w path) s
      (Reach-published id_le id r w path found final) final
