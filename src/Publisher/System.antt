-- ===== src/Publisher/System.antt =====
-- The publisher over the outbox table itself, with a database and queues that may fail.
use tabela_pubg.Prelude.{
  ℕ, ◌+◌, ◌≡◌, String, Bool, true, false, List, ◌∷◌, any, All, str_eq, Result, ok, err,
}
use tabela_pubg.Outbox.{
  OutboxStatus, published, OutboxEventRow, claim_outbox_batch, mark_outbox_published,
}
use tabela_pubg.Outbox.Retry.{retry_outbox_event}
use tabela_pubg.Publisher.{World}

-- The database answers, is down, or does the work and loses the answer.
pub data Reply : Type 0 where
  answers down loses_answer : Reply

-- The outbox table, the job ids that the queues have accepted, and the calls made so far.
pub record System : Type 0 where
  pub rows : List OutboxEventRow
  pub jobs : List String
  pub calls : ℕ

-- What each call meets, by its number; and what is not under the program's control.
pub record Surroundings : Type 0 where
  pub reply : ℕ → Reply
  pub accepts : ℕ → Bool
  pub clock : ℕ → ℕ
  pub tokens : ℕ → String
  pub locked : ℕ → String → Bool
  pub id_le : String → String → Bool
  pub is_uuid : String → Bool
  pub parse_notification : String → Result String
  pub parse_cleanup : String → Result String

abbrev pub called : System → System
called s = record s { calls = s.calls + 1 }

-- A statement on the table under a reply of the database.
abbrev pub execute :
    {A : Type 0} → Reply → System → Result (List OutboxEventRow × A) → System × Result A
execute down s q = (called s, err "connection lost")
execute _ s (err e) = (called s, err e)
execute answers s (ok (rows, a)) = (record s { rows = rows; calls = s.calls + 1 }, ok a)
execute loses_answer s (ok (rows, a)) =
    (record s { rows = rows; calls = s.calls + 1 }, err "connection lost")

abbrev pub enqueue : Bool → System → String → System × Result (Unit {0})
enqueue true s job_id = (record s { jobs = job_id ∷ s.jobs; calls = s.calls + 1 }, ok tt)
enqueue false s job_id = (called s, err "queue unavailable")

unfoldable pub outbox_world : Surroundings → World System
outbox_world env = record {
  claim_batch = λ s input.
      execute (env.reply s.calls) s
        (claim_outbox_batch env.id_le (env.locked s.calls) s.rows input);
  mark_published = λ s input. execute (env.reply s.calls) s (mark_outbox_published s.rows input);
  retry = λ s input. execute (env.reply s.calls) s (retry_outbox_event s.rows input);
  notification_add = λ s d job_id. enqueue (env.accepts s.calls) s job_id;
  cleanup_add = λ s d job_id. enqueue (env.accepts s.calls) s job_id;
  now = λ s. (called s, env.clock s.calls);
  new_claim_token = λ s. (called s, env.tokens s.calls);
  is_uuid = env.is_uuid;
  parse_notification = env.parse_notification;
  parse_cleanup = env.parse_cleanup;
}

abbrev pub enqueued : List String → String → Bool
enqueued jobs id = any (λ j. str_eq j id) jobs

-- A published row has been handed to a queue under its id.
abbrev pub DeliveredAs : List String → String → OutboxStatus → Type 0
DeliveredAs jobs id published = enqueued jobs id ≡ true
DeliveredAs jobs id _ = Unit {0}

abbrev pub Delivered : System → Type 0
Delivered s = All (λ r. DeliveredAs s.jobs r.id r.status) s.rows
