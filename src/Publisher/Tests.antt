-- ===== src/Publisher/Tests.antt =====
-- Runs of the publisher over a small outbox, and its theorems there.
use tabela_pubg.Prelude.{
  ◌≡◌, refl, true, false, none, some, [], ◌∷◌, ok, is_space, is_blank, trim, trim_start, units,
}
use tabela_pubg.Outbox.{
  pending, publishing, published, OutboxEventRow, assert_non_empty_bounded, assert_integer_in_range,
  is_eligible, comes_before, insert_in_order, in_order, eligible_ids, claim_row, check_claim,
  claim_outbox_batch, is_held, publish_row, mark_outbox_published,
}
use tabela_pubg.Outbox.Retry.{
  lower, is_word_start, is_word, is_error_code, redact_error_code, retry_delay, retry_row,
  check_retry, retry_outbox_event,
}
use tabela_pubg.Publisher.{
  default_options, map_event, retry_event, add, mark, publish_claimed_event, drain, run_once, poll,
}
use tabela_pubg.Publisher.System.{answers, System, Surroundings, outbox_world, Delivered}
use tabela_pubg.Publisher.Delivery.{poll-Delivered}

running : Unit {0}
unfolding assert_non_empty_bounded assert_integer_in_range is_eligible comes_before insert_in_order
    in_order eligible_ids claim_row check_claim claim_outbox_batch is_held publish_row
    mark_outbox_published lower is_word_start is_word is_error_code redact_error_code retry_delay
    retry_row check_retry retry_outbox_event is_space is_blank trim trim_start units map_event
    retry_event add mark publish_claimed_event drain run_once poll outbox_world
running = tt

-- Everything works, and the clock stands still.
abbrev fair : Surroundings
fair = record {
  reply = λ n. answers;
  accepts = λ n. true;
  clock = λ n. 5000;
  tokens = λ n. "t1";
  locked = λ n id. false;
  id_le = λ a b. true;
  is_uuid = λ s. true;
  parse_notification = λ s. ok s;
  parse_cleanup = λ s. ok s;
}

abbrev requested : OutboxEventRow
requested = record {
  id = "e1";
  event_type = "notification.delivery.requested";
  event_version = 1;
  aggregate_type = "notification";
  aggregate_id = "n1";
  payload = "d1";
  correlation_id = none;
  causation_id = none;
  status = pending;
  attempts = 0;
  available_at = 1000;
  occurred_at = 1000;
  published_at = none;
  claim_token = none;
  lease_expires_at = none;
  last_error = none;
}

abbrev before : System
before = record { rows = requested ∷ []; jobs = []; calls = 0 }

abbrev held : OutboxEventRow
held = record requested {
  status = publishing;
  attempts = 1;
  claim_token = some "t1";
  lease_expires_at = some 65000;
}

abbrev after : System
after = record {
  rows = record requested { status = published; attempts = 1; published_at = some 5000 } ∷ [];
  jobs = "e1" ∷ [];
  calls = 6;
}

run_of_one :
    run_once (outbox_world fair) default_options before false
    ≡ (after, ok (record { claimed = 1; published = 1; retried = 0 }))
unfolding running
run_of_one = refl

poll-Delivered_example : Delivered (poll (outbox_world fair) default_options 3 before)
poll-Delivered_example = poll-Delivered fair default_options 3 before (tt, tt)
