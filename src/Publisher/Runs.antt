-- ===== src/Publisher/Runs.antt =====
-- What one run of the publisher counts, and when an event counts as published.
use tabela_pubg.Prelude.{
  ◌+◌, ◌≤◌, ◌≡◌, ◌≢◌, refl, sym, ◌∙◌, ◌↔◌, String, Bool, true, false, List, [], ◌∷◌, length, arith,
  Result, ok, err, ap,
}
use tabela_pubg.Outbox.{OutboxEventRow}
use tabela_pubg.Publisher.{
  World, PublisherOptions, OutboxPublishRunResult, MappedEvent, EventOutcome, retried, lease_lost,
  map_event, retry_event, told_retried, add, after_mark, mark, after_add, after_map,
  publish_claimed_event, tally, drain, after_claim, run_once,
}

module _ {S : Type 0} (world : World S) (options : PublisherOptions) where
  tally_bounds :
      (o : EventOutcome) (r : OutboxPublishRunResult)
      → let t = tally world options o r in
        (t.claimed ≡ r.claimed) × (t.published + t.retried ≤ r.published + r.retried + 1)
  tally_bounds EventOutcome.published r = (refl, omega arith)
  tally_bounds retried r = (refl, omega arith)
  tally_bounds lease_lost r = (refl, omega arith)

  drain_counts :
      (s : S) (events : List OutboxEventRow) (token : String) (r : OutboxPublishRunResult)
      → let final = (drain world options s events token r).1 in
        (final.claimed ≡ r.claimed)
        × (final.published + final.retried ≤ r.published + r.retried + length events)
  unfolding drain
  drain_counts s [] token r = (refl, omega arith)
  drain_counts s (event ∷ events) token r =
      let p = publish_claimed_event world options s event token in
      let counted = tally_bounds p.1 r in
      let ih = drain_counts p.0 events token (tally world options p.1 r) in
      (ih.0 ∙ counted.0, omega (arith, counted.1, ih.1))

  after_claim_counts :
      (token : String) (claimed : S × Result (List OutboxEventRow)) (s' : S)
      (r : OutboxPublishRunResult)
      → after_claim world options token claimed ≡ (s', ok r)
      → r.published + r.retried ≤ r.claimed
  after_claim_counts token (s, err e) s' r h = absurd (cc)
  after_claim_counts token (s, ok events) s' r h =
      let start : OutboxPublishRunResult = record {
        claimed = length events;
        published = 0;
        retried = 0;
      } in
      let bounds = drain_counts s events token start in
      let e : (drain world options s events token start).1 ≡ r = cc in
      omega (arith, bounds, ap (λ x. x.claimed) e, ap (λ x. x.published + x.retried) e)

  -- However the store, the queues and the clock behave, a run that completes reports no more
  -- published and retried events than it claimed.
  pub run_once_counts :
      (s s' : S) (aborted : Bool) (r : OutboxPublishRunResult)
      → run_once world options s aborted ≡ (s', ok r)
      → r.published + r.retried ≤ r.claimed
  unfolding run_once
  run_once_counts s s' true r h = ground arith
  run_once_counts s s' false r h =
      let (s₁, token) = world.new_claim_token s in
      let (s₂, now) = world.now s₁ in
      let claimed = world.claim_batch s₂ (record {
        now = now;
        claim_token = token;
        lease_ms = options.lease_ms;
        batch_size = options.batch_size;
        max_attempts = options.max_attempts;
      }) in
      after_claim_counts token claimed s' r h

  retry_event-ne-published :
      (s : S) (id token code : String)
      → (retry_event world options s id token code).1 ≢ EventOutcome.published
  unfolding retry_event
  retry_event-ne-published s id token code = told (world.retry _ _)
    where
      told : (p : S × Result Bool) → (told_retried world options p).1 ≢ EventOutcome.published
      told (s', ok true) e = cc
      told (s', ok false) e = cc
      told (s', err x) e = cc

  -- What an event goes through before it counts as published: it passes the checks, its queue
  -- accepts it under the event's id, and then the store acknowledges it.
  abbrev pub Published : S → OutboxEventRow → String → S → Type 0
  Published s event token s' =
      (mapped : MappedEvent) × (queued : S) × (map_event world options event token ≡ ok mapped)
      × (add world options s mapped event.id ≡ (queued, ok tt))
      × (mark world options queued event token ≡ (s', ok true))

  after_mark_published :
      (event : OutboxEventRow) (token : String) (p : S × Result Bool) (s' : S)
      → after_mark world options event token p ≡ (s', EventOutcome.published)
      → p ≡ (s', ok true)
  after_mark_published event token (s, ok true) s' h = cc
  after_mark_published event token (s, ok false) s' h =
      absurd (retry_event-ne-published _ _ _ _ (ap (λ x. x.1) h))
  after_mark_published event token (s, err e) s' h =
      absurd (retry_event-ne-published _ _ _ _ (ap (λ x. x.1) h))

  after_add_published :
      (event : OutboxEventRow) (token : String) (p : S × Result (Unit {0})) (s' : S)
      → after_add world options event token p ≡ (s', EventOutcome.published)
      → (queued : S) × (p ≡ (queued, ok tt))
        × (mark world options queued event token ≡ (s', ok true))
  after_add_published event token (s, ok tt) s' h =
      (s, refl, after_mark_published event token _ s' h)
  after_add_published event token (s, err e) s' h =
      absurd (retry_event-ne-published _ _ _ _ (ap (λ x. x.1) h))

  after_map_published :
      (s : S) (event : OutboxEventRow) (token : String) (m : Result MappedEvent) (s' : S)
      → m ≡ map_event world options event token
      → after_map world options s event token m ≡ (s', EventOutcome.published)
      → Published s event token s'
  after_map_published s event token (ok mapped) s' e h =
      let (queued, added, marked) = after_add_published event token _ s' h in
      (mapped, queued, sym e, added, marked)
  after_map_published s event token (err x) s' e h =
      absurd (retry_event-ne-published _ _ _ _ (ap (λ x. x.1) h))

  -- An event counts as published exactly if it went through the checks, its queue and the
  -- acknowledgement, in this order, however the store and the queues behave.
  pub publish_claimed_event_published :
      (s s' : S) (event : OutboxEventRow) (token : String)
      → (publish_claimed_event world options s event token ≡ (s', EventOutcome.published))
        ↔ Published s event token s'
  unfolding publish_claimed_event
  publish_claimed_event_published s s' event token =
      (after_map_published s event token _ s' refl, λ (mapped, queued, m, a, k). rw (m, a, k))
