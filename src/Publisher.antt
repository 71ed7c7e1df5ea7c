-- ===== src/Publisher.antt =====
-- apps/worker/src/outbox/publisher.ts: the worker that hands claimed outbox events to the queues.
-- What it calls (the store, the queues, the clock, the token source, the schemas of zod) is a
-- `World` over a state; a call returns the new state with its value or its error. Log lines are
-- left out.
pub mod Runs
pub mod System
pub mod Delivery
pub mod Tests
use tabela_pubg.Prelude.{
  ℕ, zero, suc, ◌+◌, String, Bool, true, false, not, ◌||◌, Option, none, some, List, [], ◌∷◌,
  length, ◌==◌, if◌then◌else◌, str_eq, is_text, Result, ok, err, ◌>>=◌, ◌>>◌, require,
}
use tabela_pubg.Outbox.{
  OutboxEventRow, ClaimOutboxBatchInput, MarkOutboxPublishedInput, RetryOutboxEventInput,
  is_publishing,
}

pub record PublisherOptions : Type 0 where
  pub lease_ms : ℕ
  pub batch_size : ℕ
  pub max_attempts : ℕ
  pub retry_base_ms : ℕ
  pub retry_max_ms : ℕ

-- What the constructor fills in.
abbrev pub default_options : PublisherOptions
default_options = record {
  lease_ms = 60000;
  batch_size = 25;
  max_attempts = 5;
  retry_base_ms = 1000;
  retry_max_ms = 60000;
}

pub record OutboxPublishRunResult : Type 0 where
  pub claimed : ℕ
  pub published : ℕ
  pub retried : ℕ

pub data MappedEvent : Type 0 where
  notification : (delivery_id : String) → MappedEvent
  cleanup : (cleanup_id : String) → MappedEvent

pub data EventOutcome : Type 0 where
  published retried lease_lost : EventOutcome

pub record World (S : Type 0) : Type 0 where
  pub claim_batch : S → ClaimOutboxBatchInput → S × Result (List OutboxEventRow)
  pub mark_published : S → MarkOutboxPublishedInput → S × Result Bool
  pub retry : S → RetryOutboxEventInput → S × Result Bool
  pub notification_add : S → String → String → S × Result (Unit {0})
  pub cleanup_add : S → String → String → S × Result (Unit {0})
  pub now : S → S × ℕ
  pub new_claim_token : S → S × String
  pub is_uuid : String → Bool
  pub parse_notification : String → Result String
  pub parse_cleanup : String → Result String

module _ {S : Type 0} (world : World S) (options : PublisherOptions) where
  unfoldable pub map_event : OutboxEventRow → String → Result MappedEvent
  map_event event expected_claim_token = do
    require (world.is_uuid event.id) "invalid uuid"
    require
        (not (
          not (is_publishing event.status)
          || not (is_text event.claim_token expected_claim_token)
          || not (event.event_version == 1)))
        "invalid outbox event"
    (if str_eq event.event_type "notification.delivery.requested"
        then world.parse_notification event.payload >>= (λ id. ok (notification id))
        else if str_eq event.event_type "storage.logo.cleanup"
        then world.parse_cleanup event.payload >>= (λ id. ok (cleanup id))
        else err "unsupported outbox event")

  abbrev pub told_retried : S × Result Bool → S × EventOutcome
  told_retried (s, ok true) = (s, retried)
  told_retried (s, ok false) = (s, lease_lost)
  told_retried (s, err e) = (s, lease_lost)

  unfoldable pub retry_event : S → String → String → String → S × EventOutcome
  retry_event s event_id claim_token error_code =
      let (s', now) = world.now s in
      told_retried (
        world.retry s' (record {
          event_id = event_id;
          claim_token = claim_token;
          now = now;
          error_code = error_code;
          base_retry_ms = options.retry_base_ms;
          max_retry_ms = options.retry_max_ms;
          max_attempts = options.max_attempts;
        }))

  unfoldable pub add : S → MappedEvent → String → S × Result (Unit {0})
  add s (notification delivery_id) job_id = world.notification_add s delivery_id job_id
  add s (cleanup cleanup_id) job_id = world.cleanup_add s cleanup_id job_id

  abbrev pub after_mark : OutboxEventRow → String → S × Result Bool → S × EventOutcome
  after_mark event token (s, ok true) = (s, published)
  after_mark event token (s, ok false) = retry_event s event.id token "outbox_lease_lost"
  after_mark event token (s, err e) =
      retry_event s event.id token "outbox_publish_transition_failed"

  unfoldable pub mark : S → OutboxEventRow → String → S × Result Bool
  mark s event token =
      let (s', now) = world.now s in
      world.mark_published s'
        (record { event_id = event.id; claim_token = token; published_at = now })

  abbrev pub after_add : OutboxEventRow → String → S × Result (Unit {0}) → S × EventOutcome
  after_add event token (s, ok u) = after_mark event token (mark s event token)
  after_add event token (s, err e) = retry_event s event.id token "outbox_enqueue_failed"

  abbrev pub after_map : S → OutboxEventRow → String → Result MappedEvent → S × EventOutcome
  after_map s event token (ok mapped) = after_add event token (add s mapped event.id)
  after_map s event token (err e) = retry_event s event.id token "outbox_event_invalid"

  unfoldable pub publish_claimed_event : S → OutboxEventRow → String → S × EventOutcome
  publish_claimed_event s event claim_token =
      after_map s event claim_token (map_event event claim_token)

  abbrev pub tally : EventOutcome → OutboxPublishRunResult → OutboxPublishRunResult
  tally published r = record r { published = r.published + 1 }
  tally retried r = record r { retried = r.retried + 1 }
  tally lease_lost r = r

  -- the loop over the claimed events
  unfoldable pub drain :
      S → List OutboxEventRow → String → OutboxPublishRunResult → S × OutboxPublishRunResult
  drain s [] claim_token counts = (s, counts)
  drain s (event ∷ events) claim_token counts =
      let (s', outcome) = publish_claimed_event s event claim_token in
      drain s' events claim_token (tally outcome counts)

  abbrev pub after_claim :
      String → S × Result (List OutboxEventRow) → S × Result OutboxPublishRunResult
  after_claim token (s, err e) = (s, err e)
  after_claim token (s, ok events) =
      let (s', counts) =
        drain s events token (record { claimed = length events; published = 0; retried = 0 }) in
      (s', ok counts)

  unfoldable pub run_once : S → Bool → S × Result OutboxPublishRunResult
  run_once s true = (s, ok (record { claimed = 0; published = 0; retried = 0 }))
  run_once s false =
      let (s₁, token) = world.new_claim_token s in
      let (s₂, now) = world.now s₁ in
      after_claim token (
        world.claim_batch s₂ (record {
          now = now;
          claim_token = token;
          lease_ms = options.lease_ms;
          batch_size = options.batch_size;
          max_attempts = options.max_attempts;
        }))

  -- The polling loop for as many rounds as it is not aborted; a failed claim is only logged. The
  -- delay between the rounds is the clock's.
  unfoldable pub poll : ℕ → S → S
  poll zero s = s
  poll (suc rounds) s = poll rounds (run_once s false).0
