-- ===== src/Agent/Outbox/Examples.antt =====
-- The outbox on small runs: tests and instances.
use time_weaver.Prelude.{
  ◌≡◌, refl, ◌≤◌, true, none, some, List, [], ◌∷◌, ◌++◌, String, pos, ok, put, get, pop, length,
  arith, text_comparable,
}
use time_weaver.Agent.ApiErrors.{Exception, protocol_error}
use time_weaver.Agent.Envelope.{
  ResultEnvelope, bounded_envelope, bounded_envelope_lem, environment_info_max, json_size,
}
use time_weaver.Agent.RetryBackoff.{RetrySettings, RetryBackoff}
use time_weaver.Agent.Outbox.{
  OutboxSettings, ResultOutbox, new_outbox, queue, reserve_section, enqueue_section, remove_head,
  new_item, fresh,
}
use time_weaver.Agent.Outbox.Sending.{classify_failure}
use time_weaver.Agent.Outbox.Delivery.{Answer, drain_group}
use time_weaver.Agent.Outbox.Sections.{Section, perform, interleave}
use time_weaver.Agent.Outbox.Capacity.{IsValid, interleave_counts}
use time_weaver.Agent.Outbox.Fifo.{appended_along, taken_along, queue-interleave}
use time_weaver.Agent.Outbox.Settlement.{
  Settles, settled, settled_by, envelopes, drain_group-Settles,
}
use time_weaver.Agent.Outbox.Sending.{begin_drain}
use time_weaver.Agent.Outbox.Progress.{Replies, replies, IsSending, drain_group-delivers}
use time_weaver.Agent.Outbox.Policy.{action_of, classify_failure-protocol_error}

abbrev retry : RetrySettings
retry = record { initial_delay = 1000; multiplier = 2000; max_delay = 60000; jitter_ratio = 200 }

abbrev settings : OutboxSettings
settings = record {
  capacity = 3;
  high_watermark = 2;
  low_watermark = 1;
  sender_workers = 1;
  retry = retry;
}

abbrev result : String → ResultEnvelope
result detail = record {
  execution_grp_id = "g";
  schedule_id = 1;
  detail_id = detail;
  attempt = 1;
  manual_id = none;
  claim_token = none;
  started_at = "2024-01-01T00:00:00Z";
  finished_at = "2024-01-01T00:00:01Z";
  result_code = pos 0;
  result_message = none;
  environment_info = ("host", "h") ∷ [];
  sequence = 1;
}

abbrev start : ResultOutbox
start = fresh settings none

opened : new_outbox settings none ≡ ok start
unfolding new_outbox
opened = refl

-- Two reservations and two results, and the removal of the first.
abbrev work : List Section
work =
    Section.reserves
    ∷ Section.reserves
    ∷ Section.enqueues (result "a")
    ∷ Section.enqueues (result "b")
    ∷ Section.removes "g" (new_item (result "a") start)
    ∷ []

interleave_counts_example : IsValid (interleave work start)
interleave_counts_example = interleave_counts settings none start work opened

queue-interleave_example :
    queue "g" start ++ appended_along "g" work start
    ≡ taken_along "g" work start ++ queue "g" (interleave work start)
queue-interleave_example = queue-interleave "g" work start

one_left : length (queue "g" (interleave work start)) ≡ 1
unfolding perform bounded_envelope reserve_section enqueue_section remove_head get put pop
one_left = refl

-- Two queued results.
abbrev loaded : ResultOutbox
loaded = record start {
  queues =
      (
        "g",
        new_item (result "a") start ∷ new_item (result "b") (record start { allocated = 1 }) ∷ [],
      )
      ∷ [];
  queued_results = 2;
  backlog_latched = true;
  allocated = 2;
}

-- An acknowledgement, then a rejection for good, then a busy server.
abbrev mixed : List Answer
mixed = Answer.replied none ∷ Answer.raised (Exception.api (protocol_error "not_found" none)) ∷ []

drain_group-Settles_example :
    Settles "g" loaded
      (drain_group "g" 1000 mixed loaded)
      (settled_by "g" 1000 mixed (begin_drain "g" loaded).0)
drain_group-Settles_example = drain_group-Settles "g" 1000 mixed loaded refl

abbrev two_replies : Replies
two_replies = none ∷ none ∷ []

loaded-IsSending : IsSending loaded
loaded-IsSending = record { open_ = refl; running = refl }

fits : length (queue "g" loaded) ≤ length two_replies
unfolding get
fits = omega arith

drain_group-delivers_example :
    (queue "g" (drain_group "g" 1000 (replies two_replies) loaded) ≡ [])
    × (settled (drain_group "g" 1000 (replies two_replies) loaded).effects
        ≡ settled loaded.effects ++ envelopes (queue "g" loaded))
drain_group-delivers_example =
    drain_group-delivers "g" 1000 two_replies loaded loaded-IsSending fits

classify_failure-protocol_error_example :
    (classify_failure (Exception.api (protocol_error "rate_limited" (some 5000))) loaded).0
    ≡ action_of "rate_limited" loaded
classify_failure-protocol_error_example =
    classify_failure-protocol_error "rate_limited" (some 5000) loaded

bounded_envelope_lem_example :
    (json_size (bounded_envelope (result "a")).environment_info ≤ environment_info_max)
    × (json_size (result "a").environment_info ≤ environment_info_max
        → bounded_envelope (result "a") ≡ result "a")
    × ((k v : String)
        → get k (bounded_envelope (result "a")).environment_info ≡ some v
        → get k (result "a").environment_info ≡ some v)
bounded_envelope_lem_example = bounded_envelope_lem (result "a")

-- Seventeen hours of retries without an answer.
abbrev counted : RetryBackoff
counted = record { settings = retry; failures = 1024 }

abbrev exhausted : ResultOutbox
exhausted = record loaded { retry_backoffs = ("g", counted) ∷ [] }
