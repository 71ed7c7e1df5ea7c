-- ===== src/Outbox/Tests.antt =====
-- Runs of the outbox, and its theorems at concrete tables.
use mathlib.Core.List.{Memᴰ}
use tabela_pubg.Prelude.{
  ◌+◌, ◌≤◌, ◌≡◌, refl, ◌↔◌, String, Bool, true, false, none, some, List, [], ◌∷◌, length, arith,
  find_by, HasDistinctKeys, ok, is_space, is_blank, trim, trim_start, units, All,
}
use tabela_pubg.Outbox.{
  pending, publishing, published, failed, OutboxEventRow, EventEnvelope, ClaimOutboxBatchInput,
  MarkOutboxPublishedInput, RetryOutboxEventInput, event_id, to_outbox_record, append_outbox_event,
  assert_non_empty_bounded, assert_integer_in_range, is_eligible, comes_before, insert_in_order,
  in_order, eligible_ids, claim_row, check_claim, claim_outbox_batch, is_held, publish_row,
  mark_outbox_published,
}
use tabela_pubg.Outbox.Retry.{
  lower, is_word_start, is_word, is_error_code, redact_error_code, retry_delay, retry_row,
  check_retry, retry_outbox_event,
}
use tabela_pubg.Outbox.Claims.{claim_outbox_batch_claimed, Eligible}
use tabela_pubg.Outbox.Rows.{
  IsWellFormed, Reach, here, next, Step, Reach-IsWellFormed, Reach-published,
}
use tabela_pubg.Outbox.Leases.{
  IsHeld, OtherStep, lease_exclusive, mark_outbox_published_iff, Retried,
  retry_outbox_event_backoff,
}

-- What a run unfolds.
running : Unit {0}
unfolding append_outbox_event to_outbox_record assert_non_empty_bounded assert_integer_in_range
    is_eligible comes_before insert_in_order in_order eligible_ids claim_row check_claim
    claim_outbox_batch is_held publish_row mark_outbox_published lower is_word_start is_word
    is_error_code redact_error_code retry_delay retry_row check_retry retry_outbox_event is_space
    is_blank trim trim_start units
running = tt

abbrev any_order : String → String → Bool
any_order a b = true

abbrev unlocked : String → Bool
unlocked id = false

abbrev event : EventEnvelope
event = record {
  id = "e1";
  type = "organization.created";
  version = 1;
  occurred_at = 1000;
  correlation_id = none;
  causation_id = none;
  aggregate_type = "organization";
  aggregate_id = "o1";
  payload = "{}";
}

abbrev waiting_row : OutboxEventRow
waiting_row = record {
  id = "e1";
  event_type = "organization.created";
  event_version = 1;
  aggregate_type = "organization";
  aggregate_id = "o1";
  payload = "{}";
  correlation_id = none;
  causation_id = none;
  status = pending;
  attempts = 0;
  available_at = 1000;
  occurred_at = 1000;
  published_at = none;
  claim_token = none;
  lease_expires_at = none;
  last_error = none;
}

abbrev held_row : OutboxEventRow
held_row = record waiting_row {
  status = publishing;
  attempts = 1;
  claim_token = some "t1";
  lease_expires_at = some 61500;
}

abbrev final_row : OutboxEventRow
final_row = record held_row {
  status = published;
  published_at = some 2000;
  claim_token = none;
  lease_expires_at = none;
}

abbrev claiming : ClaimOutboxBatchInput
claiming = record {
  now = 1500;
  claim_token = "t1";
  lease_ms = 60000;
  batch_size = 25;
  max_attempts = 5;
}

abbrev marking : MarkOutboxPublishedInput
marking = record { event_id = "e1"; claim_token = "t1"; published_at = 2000 }

abbrev retrying : RetryOutboxEventInput
retrying = record {
  event_id = "e1";
  claim_token = "t1";
  now = 2000;
  error_code = " Outbox_Enqueue_FAILED ";
  base_retry_ms = 1000;
  max_retry_ms = 60000;
  max_attempts = 5;
}

appended : append_outbox_event [] event 1000 ≡ ok (waiting_row ∷ [])
unfolding running
appended = refl

claimed_run :
    claim_outbox_batch any_order unlocked (waiting_row ∷ []) claiming
    ≡ ok (held_row ∷ [], held_row ∷ [])
unfolding running
claimed_run = refl

early_claim :
    claim_outbox_batch any_order unlocked (held_row ∷ []) claiming ≡ ok (held_row ∷ [], [])
unfolding running
early_claim = refl

marked_run : mark_outbox_published (held_row ∷ []) marking ≡ ok (final_row ∷ [], true)
unfolding running
marked_run = refl

abbrev retried_table : List OutboxEventRow
retried_table =
    record held_row {
      status = failed;
      available_at = 3000;
      claim_token = none;
      lease_expires_at = none;
      last_error = some (redact_error_code "outbox_enqueue_failed");
    }
    ∷ []

retried_run : retry_outbox_event (held_row ∷ []) retrying ≡ ok (retried_table, true)
unfolding running
retried_run = refl

one_row : (r : OutboxEventRow) → HasDistinctKeys event_id (r ∷ [])
one_row r = (tt, tt)

waiting_table-IsWellFormed : IsWellFormed (waiting_row ∷ [])
waiting_table-IsWellFormed = record {
  distinct = one_row waiting_row;
  consistent = ((refl, refl, refl, refl), tt);
}

history : Reach any_order (waiting_row ∷ []) (final_row ∷ [])
history =
    next (next here (Step.claim unlocked claiming (held_row ∷ []) claimed_run))
      (Step.mark marking true marked_run)

claim_outbox_batch_claimed_example :
    (length (held_row ∷ []) ≤ 25)
    × All
        (λ q.
          (r : OutboxEventRow) × Memᴰ r (waiting_row ∷ [])
          × Eligible claiming r
          × (false ≡ false)
          × (q ≡ record r {
            status = publishing;
            attempts = r.attempts + 1;
            claim_token = some "t1";
            lease_expires_at = some 61500;
            last_error = none;
          }))
        (held_row ∷ [])
claim_outbox_batch_claimed_example =
    claim_outbox_batch_claimed any_order unlocked claiming (waiting_row ∷ []) (held_row ∷ [])
      (held_row ∷ []) (one_row waiting_row) claimed_run

Reach-IsWellFormed_example : IsWellFormed (final_row ∷ [])
Reach-IsWellFormed_example = Reach-IsWellFormed any_order waiting_table-IsWellFormed history

final_table-IsWellFormed : IsWellFormed (final_row ∷ [])
final_table-IsWellFormed = record {
  distinct = one_row final_row;
  consistent = ((refl, refl, λ e. cc, omega arith), tt);
}

later_claim :
    claim_outbox_batch any_order unlocked (final_row ∷ []) claiming ≡ ok (final_row ∷ [], [])
unfolding running
later_claim = refl

Reach-published_example : find_by event_id "e1" (final_row ∷ []) ≡ some final_row
Reach-published_example =
    Reach-published any_order "e1" final_row final_table-IsWellFormed
      (next here (Step.claim unlocked claiming [] later_claim)) refl refl

lease_exclusive_example : find_by event_id "e1" (held_row ∷ []) ≡ some held_row
lease_exclusive_example =
    lease_exclusive any_order "e1" "t1" 61500 held_row (one_row held_row) refl (refl, refl, refl)
      (OtherStep.claim unlocked claiming [] early_claim (omega arith))

mark_outbox_published_iff_example : (true ≡ true) ↔ (
    (r : OutboxEventRow) × (find_by event_id "e1" (held_row ∷ []) ≡ some r)
    × IsHeld "t1" 2000 r
    × (find_by event_id "e1" (final_row ∷ [])
        ≡ some (record r {
          status = published;
          published_at = some 2000;
          claim_token = none;
          lease_expires_at = none;
          last_error = none;
        })))
mark_outbox_published_iff_example =
    mark_outbox_published_iff marking (held_row ∷ []) (final_row ∷ []) true (one_row held_row)
      marked_run

retry_outbox_event_backoff_example : Retried retrying (held_row ∷ []) retried_table
retry_outbox_event_backoff_example =
    retry_outbox_event_backoff retrying (held_row ∷ []) retried_table (one_row held_row) retried_run
