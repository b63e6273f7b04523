-- ===== src/Agent/OperatingState.antt =====
-- agent/services/time_weaver/operating_state.py: the reasons that the agent holds, the operating
-- state derived from them, and the transitions that listeners hear of.
pub mod Reasons
pub mod Trace
pub mod Transitions
mod Examples
use time_weaver.Prelude.{
  ℕ, Bool, true, false, not, ◌&&◌, ◌||◌, String, List, [], ◌∷◌, map, ◌==◌, if◌then◌else◌,
  text_comparable, nat_comparable, Comparable, ◌≡◌, ◌↔◌, arith, is_empty, contains, add, discard,
  filter_by, sort_by, text_le, text_append, starts_with, ◌++◌,
}

pub data OperatingState : Type 0 where
  bootstrap healthy degraded halted : OperatingState

abbrev pub same_state : OperatingState → OperatingState → Bool
same_state OperatingState.bootstrap OperatingState.bootstrap = true
same_state OperatingState.healthy OperatingState.healthy = true
same_state OperatingState.degraded OperatingState.degraded = true
same_state OperatingState.halted OperatingState.halted = true
same_state _ _ = false

abbrev pub fail_closed : List String
fail_closed =
    "needs_enrollment" ∷ "device_inactive" ∷ "device_revoked" ∷ "credential_persist_failed"
    ∷ "reconciliation_restore_failed" ∷ []

pub record StateValue : Type 0 where
  pub state : OperatingState
  pub reasons : List String
  pub execution_allowed : Bool

pub record StateTransition : Type 0 where
  pub previous : StateValue
  pub current : StateValue

-- A listener is named by a number; what it does is not modelled here.
pub record OperatingStateManager : Type 0 where
  pub has_valid_snapshot : Bool
  pub fail_closed_reasons : List String
  pub degraded_reasons : List String
  pub transition_listeners : List ℕ

abbrev pub new_manager : OperatingStateManager
new_manager = record {
  has_valid_snapshot = false;
  fail_closed_reasons = [];
  degraded_reasons = [];
  transition_listeners = [];
}

abbrev union : List String → List String → List String
union [] t = t
union (x ∷ s) t = add x (union s t)

abbrev allows : OperatingState → Bool
allows OperatingState.healthy = true
allows OperatingState.degraded = true
allows _ = false

unfoldable pub state_of : OperatingStateManager → OperatingState
state_of m =
    if not (is_empty m.fail_closed_reasons)
    then OperatingState.halted
    else if not m.has_valid_snapshot
    then OperatingState.bootstrap
    else if not (is_empty m.degraded_reasons)
    then OperatingState.degraded
    else OperatingState.healthy

abbrev reasons_in : OperatingState → OperatingStateManager → List String
reasons_in OperatingState.halted m = union m.fail_closed_reasons m.degraded_reasons
reasons_in OperatingState.healthy m = []
reasons_in _ m = m.degraded_reasons

-- OperatingStateManager.value
unfoldable pub value : OperatingStateManager → StateValue
unfolding sort_by
value m = record {
  state = state_of m;
  reasons = sort_by text_le (reasons_in (state_of m) m);
  execution_allowed = allows (state_of m);
}

unfoldable pub add_transition_listener : ℕ → OperatingStateManager → OperatingStateManager
add_transition_listener listener m = record m {
  transition_listeners =
      if contains listener m.transition_listeners
      then m.transition_listeners
      else m.transition_listeners ++ listener ∷ [];
}

-- What an operation leaves: the manager, the value that it returns, and the calls of listeners in
-- their order. A listener that raises does not stop the others.
pub record Published : Type 0 where
  pub manager : OperatingStateManager
  pub current : StateValue
  pub notified : List (ℕ × StateTransition)

unfoldable pub publish : StateValue → OperatingStateManager → Published
publish previous m = record {
  manager = m;
  current = value m;
  notified =
      if same_state (value m).state previous.state
      then []
      else map (λ l. (l, record { previous = previous; current = value m })) m.transition_listeners;
}

unfoldable pub clear_prefixed : String → OperatingStateManager → OperatingStateManager
clear_prefixed prefix m = record m {
  degraded_reasons = filter_by (λ r. not (starts_with r prefix)) m.degraded_reasons;
}

-- The three assignments that the operations below are made of.
abbrev hold : String → OperatingStateManager → OperatingStateManager
hold reason m = record m {
  fail_closed_reasons = add reason m.fail_closed_reasons;
  has_valid_snapshot = false;
}

abbrev drop_fail_closed : String → OperatingStateManager → OperatingStateManager
drop_fail_closed reason m = record m { fail_closed_reasons = discard reason m.fail_closed_reasons }

abbrev degrade : String → OperatingStateManager → OperatingStateManager
degrade reason m = record m { degraded_reasons = add reason m.degraded_reasons }

abbrev drop_degraded : String → OperatingStateManager → OperatingStateManager
drop_degraded reason m = record m { degraded_reasons = discard reason m.degraded_reasons }

unfoldable pub credential_succeeded : OperatingStateManager → Published
unfolding publish clear_prefixed
credential_succeeded m =
    publish (value m) (drop_fail_closed "needs_enrollment" (clear_prefixed "credential:" m))

unfoldable pub credential_failed : String → OperatingStateManager → Published
unfolding publish
credential_failed reason m = publish (value m) (
    if contains reason fail_closed
    then hold reason m
    else degrade (text_append "credential:" reason) m)

unfoldable pub enrollment_succeeded : OperatingStateManager → Published
unfolding publish clear_prefixed
enrollment_succeeded m = publish (value m) (
    clear_prefixed "credential:"
      (drop_fail_closed "credential_persist_failed" (drop_fail_closed "needs_enrollment" m)))

unfoldable pub heartbeat_succeeded : OperatingStateManager → Published
unfolding publish clear_prefixed
heartbeat_succeeded m = publish (value m) (clear_prefixed "heartbeat:" m)

unfoldable pub heartbeat_failed : String → OperatingStateManager → Published
unfolding publish
heartbeat_failed reason m = publish (value m) (
    if contains reason ("device_inactive" ∷ "device_revoked" ∷ [])
    then hold reason m
    else if contains reason ("invalid_token" ∷ "token_expired" ∷ "needs_enrollment" ∷ [])
    then hold "needs_enrollment" m
    else degrade (text_append "heartbeat:" reason) m)

unfoldable pub snapshot_succeeded : OperatingStateManager → Published
unfolding publish clear_prefixed
snapshot_succeeded m = publish (value m) (
    drop_degraded "reconciliation_failed"
      (clear_prefixed "snapshot:" (record m { has_valid_snapshot = true })))

unfoldable pub snapshot_failed : String → OperatingStateManager → Published
unfolding publish
snapshot_failed reason m = publish (value m) (degrade (text_append "snapshot:" reason) m)

unfoldable pub clock_warning : Bool → OperatingStateManager → Published
unfolding publish
clock_warning active m =
    publish (value m) (if active then degrade "clock_skew" m else drop_degraded "clock_skew" m)

unfoldable pub device_status : String → OperatingStateManager → Published
unfolding publish
device_status status m = publish (value m) (
    if status == "active"
    then drop_fail_closed "device_revoked" (drop_fail_closed "device_inactive" m)
    else if contains status ("inactive" ∷ "revoked" ∷ [])
    then hold (text_append "device_" status) m
    else degrade "device_status_unknown" m)

unfoldable pub reconciliation_failed : Bool → OperatingStateManager → Published
unfolding publish
reconciliation_failed restored m =
    publish (value m) (
      if restored
      then degrade "reconciliation_failed" m
      else hold "reconciliation_restore_failed" m)

unfoldable pub reconciliation_succeeded : OperatingStateManager → Published
unfolding publish
reconciliation_succeeded m = publish (value m) (drop_degraded "reconciliation_failed" m)

unfoldable pub clear_fail_closed_reason : String → OperatingStateManager → Published
unfolding publish
clear_fail_closed_reason reason m = publish (value m) (drop_fail_closed reason m)

-- The operations as events, one constructor each.
pub data Event : Type 0 where
  credential_ok enrollment_ok heartbeat_ok snapshot_ok reconciliation_ok : Event
  credential_error heartbeat_error snapshot_error : (reason : String) → Event
  clock : (active : Bool) → Event
  status : (status : String) → Event
  reconciliation_error : (restored : Bool) → Event
  clear : (reason : String) → Event

unfoldable pub handle : Event → OperatingStateManager → Published
unfolding credential_succeeded credential_failed enrollment_succeeded heartbeat_succeeded
    heartbeat_failed snapshot_succeeded snapshot_failed clock_warning device_status
    reconciliation_failed reconciliation_succeeded clear_fail_closed_reason
handle credential_ok m = credential_succeeded m
handle enrollment_ok m = enrollment_succeeded m
handle heartbeat_ok m = heartbeat_succeeded m
handle snapshot_ok m = snapshot_succeeded m
handle reconciliation_ok m = reconciliation_succeeded m
handle (credential_error reason) m = credential_failed reason m
handle (heartbeat_error reason) m = heartbeat_failed reason m
handle (snapshot_error reason) m = snapshot_failed reason m
handle (clock active) m = clock_warning active m
handle (status s) m = device_status s m
handle (reconciliation_error restored) m = reconciliation_failed restored m
handle (clear reason) m = clear_fail_closed_reason reason m

abbrev pub next : Event → OperatingStateManager → OperatingStateManager
next e m = (handle e m).manager

abbrev pub run : List Event → OperatingStateManager → OperatingStateManager
run [] m = m
run (e ∷ es) m = run es (next e m)
