-- ===== src/Agent/Outbox.antt =====
-- ResultOutbox of agent/services/time_weaver/outbox.py. Each function is one section under the lock,
-- so that any interleaving of threads is a sequence of them; Delivery composes them as the methods
-- do. Queues, timers and backoffs are dicts; what the outbox asks of others is appended to `effects`.
pub mod Sending
pub mod Delivery
pub mod Sections
pub mod Quiet
pub mod Capacity
pub mod Fifo
pub mod Settlement
pub mod Progress
pub mod Policy
pub mod Overflow
mod Examples
use time_weaver.Prelude.{
  ℕ, zero, suc, ◌+◌, ◌-◌, Bool, true, false, not, ◌&&◌, ◌||◌, Option, none, some, String, List, [],
  ◌∷◌, ◌++◌, map, Dict, get, put, pop, contains, add, discard, ◌==◌, if◌then◌else◌, leb, ltb,
  text_comparable, nat_comparable, is_none, is_empty, Result, ok, error,
}
use time_weaver.Agent.Envelope.{ResultEnvelope, OutboxItem, bounded_envelope, idempotency_key}
use time_weaver.Agent.OperatingState.{OperatingState, OperatingStateManager, same_state, state_of}
use time_weaver.Agent.RetryBackoff.{RetrySettings, RetryBackoff, Delay, new_backoff, failure_delay}

pub record OutboxSettings : Type 0 where
  pub capacity : ℕ
  pub high_watermark : ℕ
  pub low_watermark : ℕ
  pub sender_workers : ℕ
  pub retry : RetrySettings

-- A transition that the server reports with an acknowledgement.
pub record Transition : Type 0 where
  pub target : String
  pub id : Option String

pub data Effect : Type 0 where
  submitted started_timer cancelled_timer : (group : String) → Effect
  worker_raised : (name : String) → Effect
  reported : (event_type severity message cause : String) → Effect
  acknowledged : ResultEnvelope → List Transition → Effect
  rejected : ResultEnvelope → (code : String) → Effect

-- The fields of ResultOutbox; `allocated` counts the items made so far, for their identities.
pub record ResultOutbox : Type 0 where
  pub settings : OutboxSettings
  pub state_manager : Option OperatingStateManager
  pub queues : Dict String (List OutboxItem)
  pub reserved_slots : ℕ
  pub queued_results : ℕ
  pub active_groups : List String
  pub sending_groups : List String
  pub retry_timers : Dict String Delay
  pub retry_backoffs : Dict String RetryBackoff
  pub backlog_latched : Bool
  pub event_latches : List String
  pub closed : Bool
  pub allocated : ℕ
  pub effects : List Effect

-- The fields that ResultOutbox.__init__ sets.
abbrev pub fresh : OutboxSettings → Option OperatingStateManager → ResultOutbox
fresh s manager = record {
  settings = s;
  state_manager = manager;
  queues = [];
  reserved_slots = 0;
  queued_results = 0;
  active_groups = [];
  sending_groups = [];
  retry_timers = [];
  retry_backoffs = [];
  backlog_latched = false;
  event_latches = [];
  closed = false;
  allocated = 0;
  effects = [];
}

-- ResultOutbox.__init__, which raises ValueError on settings that are out of range.
unfoldable pub new_outbox :
    OutboxSettings → Option OperatingStateManager → Result String ResultOutbox
new_outbox s manager =
    if leb s.capacity 0
    then error "outbox_capacity must be positive"
    else if not (ltb s.low_watermark s.high_watermark && leb s.high_watermark s.capacity)
    then error "outbox watermarks must satisfy 0 <= low < high <= capacity"
    else if ltb s.sender_workers 1
    then error "outbox_sender_workers must be positive"
    else if leb s.retry.initial_delay 0 || ltb s.retry.multiplier 1000 || leb s.retry.max_delay 0
    then error "outbox retry settings are invalid"
    else if ltb 1000 s.retry.jitter_ratio
    then error "retry_jitter_ratio must be between zero and one"
    else ok (fresh s manager)

-- ResultOutbox.size
abbrev pub size : ResultOutbox → ℕ
size o = o.reserved_slots + o.queued_results

-- self._queues.get(group), with no queue as an empty one
abbrev or_empty : Option (List OutboxItem) → List OutboxItem
or_empty none = []
or_empty (some q) = q

abbrev pub queue : String → ResultOutbox → List OutboxItem
queue group o = or_empty (get group o.queues)

-- ResultOutbox._is_halted
abbrev pub manager_halted : Option OperatingStateManager → Bool
manager_halted none = false
manager_halted (some m) = same_state (state_of m) OperatingState.halted

abbrev pub is_halted : ResultOutbox → Bool
is_halted o = manager_halted o.state_manager

abbrev pub emit : Effect → ResultOutbox → ResultOutbox
emit e o = record o { effects = o.effects ++ e ∷ [] }

abbrev pub backlog : String
backlog = "outbox:backlog"

-- ResultOutbox._update_backlog_latch_locked: the outbox, and whether to emit the backlog event.
unfoldable pub update_backlog_latch : ResultOutbox → ResultOutbox × Bool
update_backlog_latch o =
    if not o.backlog_latched && leb o.settings.high_watermark (size o)
    then (record o { backlog_latched = true }, true)
    else if o.backlog_latched && ltb (size o) o.settings.low_watermark
    then (
      record o { backlog_latched = false; event_latches = discard backlog o.event_latches },
      false,
    )
    else (o, false)

-- The section of reserve_slot: whether a slot was reserved, and whether to emit.
unfoldable pub reserve_section : ResultOutbox → ResultOutbox × (Bool × Bool)
unfolding update_backlog_latch
reserve_section o =
    if o.closed || leb o.settings.capacity (size o)
    then (o, (false, false))
    else (let (o', emits) =
          update_backlog_latch (record o { reserved_slots = o.reserved_slots + 1 }) in
        (o', (true, emits)))

-- ResultOutbox.release_slot, which raises RuntimeError without a reservation.
unfoldable pub release_slot : ResultOutbox → Result String ResultOutbox
unfolding update_backlog_latch
release_slot o =
    if leb o.reserved_slots 0
    then error "no reserved outbox slot to release"
    else ok (update_backlog_latch (record o { reserved_slots = o.reserved_slots - 1 })).0

-- The item that enqueue makes.
abbrev pub new_item : ResultEnvelope → ResultOutbox → OutboxItem
new_item envelope o = record {
  envelope = bounded_envelope envelope;
  idempotency_key = idempotency_key (bounded_envelope envelope);
  ident = o.allocated;
}

-- The section of enqueue, which raises RuntimeError without a reservation.
unfoldable pub enqueue_section : ResultEnvelope → ResultOutbox → Result String (ResultOutbox × Bool)
unfolding update_backlog_latch
enqueue_section envelope o =
    if leb o.reserved_slots 0
    then error "an outbox slot must be reserved before enqueue"
    else ok (
        let group = (bounded_envelope envelope).execution_grp_id in
        update_backlog_latch (record o {
          reserved_slots = o.reserved_slots - 1;
          queues = put group (queue group o ++ new_item envelope o ∷ []) o.queues;
          queued_results = o.queued_results + 1;
          allocated = o.allocated + 1;
        }))

-- ResultOutbox._schedule_group
unfoldable pub schedule_group : String → ResultOutbox → ResultOutbox
schedule_group group o =
    if o.closed
      || is_halted o
      || contains group o.active_groups
      || not (is_none (get group o.retry_timers))
      || is_empty (queue group o)
    then o
    else emit (Effect.submitted group) (record o { active_groups = add group o.active_groups })

-- ResultOutbox._remove_head: only the expected object leaves, and an empty queue goes.
abbrev shortened : String → List OutboxItem → ResultOutbox → Dict String (List OutboxItem)
shortened group rest o = if is_empty rest then pop group o.queues else put group rest o.queues

abbrev drop_head : String → OutboxItem → List OutboxItem → ResultOutbox → ResultOutbox
drop_head group expected [] o = o
drop_head group expected (item ∷ rest) o =
    if not (item.ident == expected.ident)
    then o
    else (update_backlog_latch
        (record o { queues = shortened group rest o; queued_results = o.queued_results - 1 })).0

unfoldable pub remove_head : String → OutboxItem → ResultOutbox → ResultOutbox
unfolding update_backlog_latch
remove_head group expected o = drop_head group expected (queue group o) o
