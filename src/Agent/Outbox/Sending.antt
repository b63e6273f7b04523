-- ===== src/Agent/Outbox/Sending.antt =====
-- The rest of ResultOutbox: events, retries, the parts of a drain, and closing.
use time_weaver.Prelude.{
  ℕ, Bool, true, false, not, ◌&&◌, ◌||◌, Option, none, some, String, List, [], ◌∷◌, ◌++◌, Dict, get,
  put, pop, Result, ok, error, contains, add, discard, if◌then◌else◌, text_comparable, is_none,
  is_empty,
}
use time_weaver.Agent.ApiErrors.{
  ApiClientError, Exception, is_authentication, is_device_inactive, is_client_rejected,
  is_transient_server, is_communication, is_malformed_response,
}
use time_weaver.Agent.Envelope.{OutboxItem}
use time_weaver.Agent.OperatingState.{
  OperatingStateManager, Published, device_status, credential_failed,
}
use time_weaver.Agent.RetryBackoff.{RetryBackoff, Delay, failure_delay}
use time_weaver.Agent.Outbox.{ResultOutbox, Effect, queue, is_halted, emit, backlog, schedule_group}

-- ResultOutbox._emit_event_once; the reporter's own failures are only counted in the source.
unfoldable pub emit_event_once :
    (cause event_type severity message : String) → ResultOutbox → ResultOutbox
emit_event_once cause event_type severity message o =
    if contains cause o.event_latches
    then o
    else emit (Effect.reported event_type severity message cause)
        (record o { event_latches = add cause o.event_latches })

unfoldable pub emit_backlog : ResultOutbox → ResultOutbox
unfolding emit_event_once
emit_backlog =
    emit_event_once backlog "outbox_backlog" "warning" "Result outbox entered backlog mode."

abbrev pub permanent_codes : List String
permanent_codes = "claim_expired" ∷ "not_found" ∷ "invalid_request" ∷ "schema_mismatch" ∷ []

abbrev pub retryable_codes : List String
retryable_codes = "rate_limited" ∷ "server_error" ∷ "unavailable" ∷ "malformed_response" ∷ []

pub data Action : Type 0 where
  retry halt remove : Action

abbrev pub with_manager :
    (OperatingStateManager → Published)
    → Option OperatingStateManager
    → Option OperatingStateManager
with_manager f none = none
with_manager f (some m) = some (f m).manager

abbrev transient : ApiClientError → Bool
transient e =
    contains e.code retryable_codes
    || is_communication e.class
    || is_transient_server e.class
    || is_malformed_response e.class

-- ResultOutbox._classify_failure: the action, and the outbox whose state manager was told.
unfoldable pub classify_failure : Exception → ResultOutbox → Action × ResultOutbox
classify_failure (Exception.other name) o = (Action.remove, o)
classify_failure (Exception.api e) o =
    let told = record o {
      state_manager = with_manager (credential_failed "needs_enrollment") o.state_manager;
    } in
    if is_device_inactive e.class
    then (
      Action.halt,
      record o { state_manager = with_manager (device_status "inactive") o.state_manager },
    )
    else if is_authentication e.class
    then ((if is_halted told then Action.halt else Action.retry), told)
    else if contains e.code permanent_codes || is_client_rejected e.class
    then (Action.remove, o)
    else if transient e
    then (Action.retry, o)
    else (Action.remove, o)

abbrev or_new : Option RetryBackoff → ResultOutbox → RetryBackoff
or_new none o = record { settings = o.settings.retry; failures = 0 }
or_new (some b) o = b

abbrev pub deferred : String → RetryBackoff × Result String Delay → ResultOutbox → ResultOutbox
deferred group (backoff, error name) o = emit (Effect.worker_raised name) (record o {
  active_groups = discard group o.active_groups;
  retry_backoffs = put group backoff o.retry_backoffs;
})
deferred group (backoff, ok delay) o = emit (Effect.started_timer group) (record o {
  active_groups = discard group o.active_groups;
  retry_backoffs = put group backoff o.retry_backoffs;
  retry_timers = put group delay o.retry_timers;
})

-- ResultOutbox._defer_group, with the draw of `random_uniform`. An exception of failure_delay leaves it
-- before a timer is made; it goes through the `finally` of _drain_group and out of the worker.
unfoldable pub defer_group : String → Option ℕ → ℕ → ResultOutbox → ResultOutbox
unfolding failure_delay
defer_group group retry_after draw o =
    deferred group (failure_delay retry_after draw (or_new (get group o.retry_backoffs) o)) o

-- ResultOutbox._retry_group, which a timer calls.
unfoldable pub retry_group : String → ResultOutbox → ResultOutbox
unfolding schedule_group
retry_group group o = schedule_group group (record o { retry_timers = pop group o.retry_timers })

-- The start of _drain_group: whether to go on.
unfoldable pub begin_drain : String → ResultOutbox → ResultOutbox × Bool
begin_drain group o =
    if o.closed
    then (record o { active_groups = discard group o.active_groups }, false)
    else (record o { sending_groups = add group o.sending_groups }, true)

-- The `finally` of _drain_group.
unfoldable pub finish_drain : String → ResultOutbox → ResultOutbox
unfolding schedule_group
finish_drain group o =
    let o' = record o {
      active_groups = discard group o.active_groups;
      sending_groups = discard group o.sending_groups;
    } in
    if not o'.closed
      && is_none (get group o'.retry_timers)
      && not (is_empty (queue group o'))
      && not (is_halted o')
    then schedule_group group o'
    else o'

-- self._retry_backoffs.pop(group, None)
abbrev pub forget_backoff : String → ResultOutbox → ResultOutbox
forget_backoff group o = record o { retry_backoffs = pop group o.retry_backoffs }

abbrev cancellations : Dict String Delay → List Effect
cancellations [] = []
cancellations ((group, _) ∷ timers) = Effect.cancelled_timer group ∷ cancellations timers

-- The first section of close, and the cancelling of the timers that it took.
unfoldable pub close_section : ResultOutbox → ResultOutbox
close_section o = record o {
  closed = true;
  retry_timers = [];
  effects = o.effects ++ cancellations o.retry_timers;
}

-- ResultOutbox.wake: each group with a queue is scheduled.
unfoldable pub wake_all : Dict String (List OutboxItem) → ResultOutbox → ResultOutbox
unfolding schedule_group
wake_all [] o = o
wake_all ((group, q) ∷ rest) o = wake_all rest (if is_empty q then o else schedule_group group o)

unfoldable pub wake : ResultOutbox → ResultOutbox
unfolding wake_all
wake o = wake_all o.queues o
