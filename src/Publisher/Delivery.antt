-- ===== src/Publisher/Delivery.antt =====
-- What the publisher has published, over the outbox table, has been handed to a queue.
use tabela_pubg.Prelude.{
  ℕ, zero, suc, ◌+◌, ◌≡◌, refl, String, Bool, true, false, List, [], ◌∷◌, update, All,
  All-update_of, arith, eq_iff, Result, ok, err,
}
use tabela_pubg.Outbox.{
  OutboxStatus, pending, publishing, published, failed, OutboxEventRow, ClaimOutboxBatchInput,
  MarkOutboxPublishedInput, RetryOutboxEventInput, eligible_ids, is_among, claim_row,
  claim_outbox_batch, is_held, publish_row, mark_outbox_published,
}
use tabela_pubg.Outbox.Retry.{may_retry, retry_row, retry_outbox_event}
use tabela_pubg.Publisher.System.{
  Reply, answers, down, loses_answer, System, Surroundings, called, execute, enqueue, outbox_world,
  enqueued, DeliveredAs, Delivered,
}
use tabela_pubg.Publisher.{
  PublisherOptions, MappedEvent, notification, cleanup, retry_event, told_retried, add, after_mark,
  mark, after_add, after_map, publish_claimed_event, tally, drain, after_claim, run_once, poll,
  OutboxPublishRunResult,
}

-- More jobs never make a delivered row undelivered.
DeliveredAs-enqueue :
    (job_id : String) (jobs : List String) (id : String) (st : OutboxStatus)
    → DeliveredAs jobs id st
    → DeliveredAs (job_id ∷ jobs) id st
DeliveredAs-enqueue job_id jobs id published h = ground arith
DeliveredAs-enqueue job_id jobs id pending h = tt
DeliveredAs-enqueue job_id jobs id publishing h = tt
DeliveredAs-enqueue job_id jobs id failed h = tt

rows-enqueue :
    (job_id : String) (jobs : List String) (rows : List OutboxEventRow)
    → All (λ r. DeliveredAs jobs r.id r.status) rows
    → All (λ r. DeliveredAs (job_id ∷ jobs) r.id r.status) rows
rows-enqueue job_id jobs [] h = tt
rows-enqueue job_id jobs (r ∷ rs) h =
    (DeliveredAs-enqueue job_id jobs r.id r.status h.0, rows-enqueue job_id jobs rs h.1)

execute-Delivered :
    {A : Type 0} (reply : Reply) (s : System) (q : Result (List OutboxEventRow × A))
    → ((rows : List OutboxEventRow) (a : A)
        → q ≡ ok (rows, a)
        → All (λ r. DeliveredAs s.jobs r.id r.status) rows)
    → Delivered s
    → Delivered (execute reply s q).0
execute-Delivered down s q keep d = d
execute-Delivered answers s (err e) keep d = d
execute-Delivered loses_answer s (err e) keep d = d
execute-Delivered answers s (ok (rows, a)) keep d = keep rows a refl
execute-Delivered loses_answer s (ok (rows, a)) keep d = keep rows a refl

claim-Delivered :
    (id_le : String → String → Bool) (locked : String → Bool) (jobs : List String)
    (rows rows' claimed : List OutboxEventRow) (input : ClaimOutboxBatchInput)
    → claim_outbox_batch id_le locked rows input ≡ ok (rows', claimed)
    → All (λ r. DeliveredAs jobs r.id r.status) rows
    → All (λ r. DeliveredAs jobs r.id r.status) rows'
unfolding claim_outbox_batch claim_row
claim-Delivered id_le locked jobs rows rows' claimed input h d =
    let ids = eligible_ids id_le locked input rows in
    let e : rows' ≡ update (is_among ids) (claim_row input) rows = ground arith in
    rw e (
      All-update_of (λ r. DeliveredAs jobs r.id r.status) (is_among ids) (claim_row input) rows
        (λ r k c. tt) d)

retry-Delivered :
    (jobs : List String) (rows rows' : List OutboxEventRow) (retried : Bool)
    (input : RetryOutboxEventInput)
    → retry_outbox_event rows input ≡ ok (rows', retried)
    → All (λ r. DeliveredAs jobs r.id r.status) rows
    → All (λ r. DeliveredAs jobs r.id r.status) rows'
unfolding retry_outbox_event retry_row
retry-Delivered jobs rows rows' retried input h d =
    let e : rows' ≡ update (may_retry input) (retry_row input) rows = ground arith in
    rw e (
      All-update_of (λ r. DeliveredAs jobs r.id r.status) (may_retry input) (retry_row input) rows
        (λ r k c. tt) d)

mark-Delivered :
    (jobs : List String) (rows rows' : List OutboxEventRow) (marked : Bool)
    (input : MarkOutboxPublishedInput)
    → mark_outbox_published rows input ≡ ok (rows', marked)
    → enqueued jobs input.event_id ≡ true
    → All (λ r. DeliveredAs jobs r.id r.status) rows
    → All (λ r. DeliveredAs jobs r.id r.status) rows'
unfolding mark_outbox_published publish_row is_held
mark-Delivered jobs rows rows' marked input h queued d =
    let held = is_held input.event_id input.claim_token input.published_at in
    let e : rows' ≡ update held (publish_row input.published_at) rows = ground arith in
    rw e (
      All-update_of (λ r. DeliveredAs jobs r.id r.status) held (publish_row input.published_at) rows
        published_one d)
  where
    published_one :
        (r : OutboxEventRow)
        → is_held input.event_id input.claim_token input.published_at r ≡ true
        → DeliveredAs jobs r.id r.status
        → enqueued jobs r.id ≡ true
    published_one r k c =
        let same : r.id ≡ input.event_id = ground (arith, eq_iff r.id input.event_id) in
        rw same queued

module _ (env : Surroundings) (options : PublisherOptions) where
  retry_event-Delivered :
      (s : System) (id token code : String)
      → Delivered s
      → Delivered (retry_event (outbox_world env) options s id token code).0
  unfolding retry_event outbox_world
  retry_event-Delivered s id token code d =
      told (execute (env.reply (s.calls + 1)) (called s) asked) kept
    where
      asked : Result (List OutboxEventRow × Bool)
      asked = retry_outbox_event s.rows (record {
        event_id = id;
        claim_token = token;
        now = env.clock s.calls;
        error_code = code;
        base_retry_ms = options.retry_base_ms;
        max_retry_ms = options.retry_max_ms;
        max_attempts = options.max_attempts;
      })

      kept : Delivered (execute (env.reply (s.calls + 1)) (called s) asked).0
      kept =
          execute-Delivered (env.reply (s.calls + 1)) (called s) asked
            (λ rows a e. retry-Delivered s.jobs s.rows rows a _ e d) d

      told :
          (p : System × Result Bool)
          → Delivered p.0
          → Delivered (told_retried (outbox_world env) options p).0
      told (s', ok true) h = h
      told (s', ok false) h = h
      told (s', err e) h = h

  mark-kept :
      (s : System) (event : OutboxEventRow) (token : String)
      → enqueued s.jobs event.id ≡ true
      → Delivered s
      → Delivered (mark (outbox_world env) options s event token).0
  unfolding mark outbox_world
  mark-kept s event token queued d =
      execute-Delivered (env.reply (s.calls + 1)) (called s) _
        (λ rows a e. mark-Delivered s.jobs s.rows rows a _ e queued d) d

  after_mark-Delivered :
      (event : OutboxEventRow) (token : String) (p : System × Result Bool)
      → Delivered p.0
      → Delivered (after_mark (outbox_world env) options event token p).0
  after_mark-Delivered event token (s, ok true) d = d
  after_mark-Delivered event token (s, ok false) d = retry_event-Delivered s event.id token _ d
  after_mark-Delivered event token (s, err e) d = retry_event-Delivered s event.id token _ d

  after_enqueue-Delivered :
      (b : Bool) (s : System) (event : OutboxEventRow) (token : String)
      → Delivered s
      → Delivered (after_add (outbox_world env) options event token (enqueue b s event.id)).0
  after_enqueue-Delivered true s event token d =
      let s' : System = record s { jobs = event.id ∷ s.jobs; calls = s.calls + 1 } in
      after_mark-Delivered event token _ (
        mark-kept s' event token (ground (arith, eq_iff event.id event.id))
          (rows-enqueue event.id s.jobs s.rows d))
  after_enqueue-Delivered false s event token d =
      retry_event-Delivered (called s) event.id token _ d

  after_map-Delivered :
      (s : System) (event : OutboxEventRow) (token : String) (m : Result MappedEvent)
      → Delivered s
      → Delivered (after_map (outbox_world env) options s event token m).0
  unfolding add outbox_world
  after_map-Delivered s event token (ok (notification x)) d =
      after_enqueue-Delivered (env.accepts s.calls) s event token d
  after_map-Delivered s event token (ok (cleanup x)) d =
      after_enqueue-Delivered (env.accepts s.calls) s event token d
  after_map-Delivered s event token (err e) d = retry_event-Delivered s event.id token _ d

  publish_claimed_event-Delivered :
      (s : System) (event : OutboxEventRow) (token : String)
      → Delivered s
      → Delivered (publish_claimed_event (outbox_world env) options s event token).0
  unfolding publish_claimed_event
  publish_claimed_event-Delivered s event token d = after_map-Delivered s event token _ d

  drain-Delivered :
      (s : System) (events : List OutboxEventRow) (token : String) (r : OutboxPublishRunResult)
      → Delivered s
      → Delivered (drain (outbox_world env) options s events token r).0
  unfolding drain
  drain-Delivered s [] token r d = d
  drain-Delivered s (event ∷ events) token r d =
      let p = publish_claimed_event (outbox_world env) options s event token in
      drain-Delivered p.0 events token (tally (outbox_world env) options p.1 r)
        (publish_claimed_event-Delivered s event token d)

  after_claim-Delivered :
      (token : String) (p : System × Result (List OutboxEventRow))
      → Delivered p.0
      → Delivered (after_claim (outbox_world env) options token p).0
  after_claim-Delivered token (s, ok events) d = drain-Delivered s events token _ d
  after_claim-Delivered token (s, err e) d = d

  run_once-Delivered :
      (s : System) (aborted : Bool)
      → Delivered s
      → Delivered (run_once (outbox_world env) options s aborted).0
  unfolding run_once outbox_world
  run_once-Delivered s true d = d
  run_once-Delivered s false d =
      let at : ℕ = s.calls + 1 + 1 in
      let asked = claim_outbox_batch env.id_le (env.locked at) s.rows (record {
        now = env.clock (s.calls + 1);
        claim_token = env.tokens s.calls;
        lease_ms = options.lease_ms;
        batch_size = options.batch_size;
        max_attempts = options.max_attempts;
      }) in
      after_claim-Delivered (env.tokens s.calls) (execute (env.reply at) (called (called s)) asked)
        (execute-Delivered (env.reply at) (called (called s)) asked
          (λ rows a e. claim-Delivered env.id_le (env.locked at) s.jobs s.rows rows a _ e d) d)

  -- From a system whose published rows have all been handed to a queue, such as one with pending
  -- rows only, this stays so after any number of polling rounds, whatever the clock, the locks of
  -- other transactions, failing queues, and a database that fails or loses answers.
  pub poll-Delivered :
      (rounds : ℕ) (s : System) → Delivered s → Delivered (poll (outbox_world env) options rounds s)
  unfolding poll
  poll-Delivered zero s d = d
  poll-Delivered (suc rounds) s d =
      poll-Delivered rounds (run_once (outbox_world env) options s false).0
        (run_once-Delivered s false d)
