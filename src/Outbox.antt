-- ===== src/Outbox.antt =====
-- packages/database/src/outbox.ts and the table of schema.ts: the transactional outbox. The table
-- is a list of rows; an operation that throws changes nothing.
pub mod Retry
pub mod Claims
pub mod Rows
pub mod Leases
pub mod Tests
use tabela_pubg.Prelude.{
  ℕ, ◌+◌, ◌-◌, ◌*◌, ◌^◌, min, String, Bool, true, false, not, ◌&&◌, ◌||◌, Option, none, some, List,
  [], ◌∷◌, ◌++◌, map, any, take, select, update, returning, length, leb, ltb, ◌==◌, if◌then◌else◌,
  str_eq, is_text, codes, trim, units, is_blank, Result, ok, err, ◌>>=◌, ◌>>◌, require, all, find,
}

pub data OutboxStatus : Type 0 where
  pending publishing published failed : OutboxStatus

-- The payload is its JSON text; an error code is its code points.
pub record OutboxEventRow : Type 0 where
  pub id : String
  pub event_type : String
  pub event_version : ℕ
  pub aggregate_type : String
  pub aggregate_id : String
  pub payload : String
  pub correlation_id : Option String
  pub causation_id : Option String
  pub status : OutboxStatus
  pub attempts : ℕ
  pub available_at : ℕ
  pub occurred_at : ℕ
  pub published_at : Option ℕ
  pub claim_token : Option String
  pub lease_expires_at : Option ℕ
  pub last_error : Option (List ℕ)

pub record EventEnvelope : Type 0 where
  pub id : String
  pub type : String
  pub version : ℕ
  pub occurred_at : ℕ
  pub correlation_id : Option String
  pub causation_id : Option String
  pub aggregate_type : String
  pub aggregate_id : String
  pub payload : String

pub record ClaimOutboxBatchInput : Type 0 where
  pub now : ℕ
  pub claim_token : String
  pub lease_ms : ℕ
  pub batch_size : ℕ
  pub max_attempts : ℕ

pub record MarkOutboxPublishedInput : Type 0 where
  pub event_id : String
  pub claim_token : String
  pub published_at : ℕ

pub record RetryOutboxEventInput : Type 0 where
  pub event_id : String
  pub claim_token : String
  pub now : ℕ
  pub error_code : String
  pub base_retry_ms : ℕ
  pub max_retry_ms : ℕ
  pub max_attempts : ℕ

abbrev pub event_id : OutboxEventRow → String
event_id r = r.id

unfoldable pub to_outbox_record : EventEnvelope → ℕ → OutboxEventRow
to_outbox_record event available_at = record {
  id = event.id;
  event_type = event.type;
  event_version = event.version;
  aggregate_type = event.aggregate_type;
  aggregate_id = event.aggregate_id;
  payload = event.payload;
  correlation_id = event.correlation_id;
  causation_id = event.causation_id;
  status = pending;
  attempts = 0;
  available_at = available_at;
  occurred_at = event.occurred_at;
  published_at = none;
  claim_token = none;
  lease_expires_at = none;
  last_error = none;
}

-- The insert fails on an id that is taken: it is the primary key.
unfoldable pub append_outbox_event :
    List OutboxEventRow → EventEnvelope → ℕ → Result (List OutboxEventRow)
append_outbox_event rows event available_at =
    if any (λ r. str_eq r.id event.id) rows
    then err "duplicate key value violates unique constraint"
    else ok (rows ++ to_outbox_record event available_at ∷ [])

-- The message of the source adds the bounds to the name.
unfoldable pub assert_non_empty_bounded : String → String → ℕ → Result (Unit {0})
assert_non_empty_bounded value name maximum_length =
    if is_blank value || ltb maximum_length (units (codes value)) then err name else ok tt

-- A number is a natural number here, so it is an integer.
unfoldable pub assert_integer_in_range : ℕ → String → ℕ → ℕ → Result (Unit {0})
assert_integer_in_range value name minimum maximum =
    if ltb value minimum || ltb maximum value then err name else ok tt

-- A comparison with null is not true.
abbrev pub reached : Option ℕ → ℕ → Bool
reached none now = false
reached (some t) now = leb t now

abbrev pub still_ahead : Option ℕ → ℕ → Bool
still_ahead none now = false
still_ahead (some t) now = ltb now t

abbrev pub is_waiting : OutboxStatus → Bool
is_waiting pending = true
is_waiting failed = true
is_waiting _ = false

abbrev pub is_publishing : OutboxStatus → Bool
is_publishing publishing = true
is_publishing _ = false

unfoldable pub is_eligible : ClaimOutboxBatchInput → OutboxEventRow → Bool
is_eligible input r =
    ltb r.attempts input.max_attempts
    && ((is_waiting r.status && leb r.available_at input.now)
        || (is_publishing r.status && reached r.lease_expires_at input.now))

-- `order by available_at, occurred_at, id`, over the database's order of ids
module _ (id_le : String → String → Bool) where
  unfoldable pub comes_before : OutboxEventRow → OutboxEventRow → Bool
  comes_before a b =
      if a.available_at == b.available_at
      then if a.occurred_at == b.occurred_at
        then id_le a.id b.id
        else ltb a.occurred_at b.occurred_at
      else ltb a.available_at b.available_at

  unfoldable pub insert_in_order : OutboxEventRow → List OutboxEventRow → List OutboxEventRow
  insert_in_order r [] = r ∷ []
  insert_in_order r (s ∷ ss) = if comes_before r s then r ∷ s ∷ ss else s ∷ insert_in_order r ss

  unfoldable pub in_order : List OutboxEventRow → List OutboxEventRow
  in_order [] = []
  in_order (r ∷ rs) = insert_in_order r (in_order rs)

  -- The ids of the eligible rows: those that another transaction has locked are skipped.
  unfoldable pub eligible_ids :
      (String → Bool) → ClaimOutboxBatchInput → List OutboxEventRow → List String
  eligible_ids locked input rows = map event_id (
      take input.batch_size
        (in_order (select (λ r. is_eligible input r && not (locked r.id)) rows)))

abbrev pub is_among : List String → OutboxEventRow → Bool
is_among ids r = any (λ i. str_eq i r.id) ids

unfoldable pub claim_row : ClaimOutboxBatchInput → OutboxEventRow → OutboxEventRow
claim_row input r = record r {
  status = publishing;
  attempts = r.attempts + 1;
  claim_token = some input.claim_token;
  lease_expires_at = some (input.now + input.lease_ms);
  last_error = none;
}

unfoldable pub check_claim : ClaimOutboxBatchInput → Result (Unit {0})
check_claim input = do
  assert_non_empty_bounded input.claim_token "outbox claim token" 128
  assert_integer_in_range input.lease_ms "outbox lease" 1 (5 * 60000)
  assert_integer_in_range input.batch_size "outbox batch size" 1 100
  assert_integer_in_range input.max_attempts "outbox maximum attempts" 1 100

-- The new table and the claimed rows.
unfoldable pub claim_outbox_batch :
    (String → String → Bool)
    → (String → Bool)
    → List OutboxEventRow
    → ClaimOutboxBatchInput
    → Result (List OutboxEventRow × List OutboxEventRow)
claim_outbox_batch id_le locked rows input = do
  check_claim input
  let ids = eligible_ids id_le locked input rows
  ok (update (is_among ids) (claim_row input) rows, returning (is_among ids) (claim_row input) rows)

-- The row is held under this token, by a lease that has not run out.
unfoldable pub is_held : String → String → ℕ → OutboxEventRow → Bool
is_held id token now r =
    str_eq r.id id
    && is_publishing r.status
    && is_text r.claim_token token
    && still_ahead r.lease_expires_at now

unfoldable pub publish_row : ℕ → OutboxEventRow → OutboxEventRow
publish_row published_at r = record r {
  status = published;
  published_at = some published_at;
  claim_token = none;
  lease_expires_at = none;
  last_error = none;
}

unfoldable pub mark_outbox_published :
    List OutboxEventRow → MarkOutboxPublishedInput → Result (List OutboxEventRow × Bool)
mark_outbox_published rows input = do
  assert_non_empty_bounded input.event_id "outbox event id" 128
  assert_non_empty_bounded input.claim_token "outbox claim token" 128
  let held = is_held input.event_id input.claim_token input.published_at
  ok (
    update held (publish_row input.published_at) rows,
    length (returning held (publish_row input.published_at) rows) == 1,
  )
