-- ===== src/Agent/Application/Handlers.antt =====
-- handle_result_ack, handle_result_rejection, exclude_task and _handle_operating_transition of app.py,
-- and the contexts that apply_snapshot gives to a plan and takes its marks for.
use time_weaver.Prelude.{
  ℕ, Bool, true, false, not, ◌&&◌, Option, none, some, String, text_append, List, [], ◌∷◌, ◌++◌,
  Dict, get, pop, ◌==◌, if◌then◌else◌, str, contains, text_comparable, nat_comparable,
}
use time_weaver.Agent.ApSchedulerAdapter.{Scheduler, ap_adapter}
use time_weaver.Agent.Application.{
  Application, ExecutionStatus, ManualStatus, Reply, replied, failed, is_running, change_status,
  stop_group, stopped,
}
use time_weaver.Agent.Application.Events.{report_event_once, clear_event_cause}
use time_weaver.Agent.Application.Sequences.{finish_detail, with_scheduler}
use time_weaver.Agent.Envelope.{ResultEnvelope}
use time_weaver.Agent.Models.{ScheduleDetail}
use time_weaver.Agent.OperatingState.{OperatingState, StateTransition, same_state}
use time_weaver.Agent.Outbox.{Transition}
use time_weaver.Agent.SyncCoordinator.{RunningContext}
use time_weaver.Agent.SyncCoordinator.Apply.{Outcome, returned, raised, remove_all_managed}

-- tuple(detail for detail in details if str(detail.detail_id) != id)
unfoldable pub other_details : String → List ScheduleDetail → List ScheduleDetail
other_details id [] = []
other_details id (detail ∷ details) =
    let rest = other_details id details in
    if not (detail.detail_id == id) then detail ∷ rest else rest

-- {sequence: those of the details that are not excluded}
unfoldable pub without_detail : String → Dict ℕ (List ScheduleDetail) → Dict ℕ (List ScheduleDetail)
unfolding other_details
without_detail id [] = []
without_detail id ((n, details) ∷ d) = (n, other_details id details) ∷ without_detail id d

abbrev pub excluding : String → ExecutionStatus → ExecutionStatus
excluding id status = record status { sequences = without_detail id status.sequences }

-- exclude_task
unfoldable pub exclude_task : {T : Type 0} → ℕ → String → Application T → Application T
unfolding without_detail
exclude_task group id a = change_status (excluding id) group a

abbrev pub or_own : Option String → String → String
or_own none own = own
or_own (some id) own = id

-- scheduler.remove_job(f"schedule:{id}"), which passes over JobLookupError.
abbrev pub unscheduled : {T : Type 0} → Scheduler T → ℕ → Application T → Outcome T
unscheduled sch group a = sch.remove_job (text_append "schedule:" (str group)) a.adapter.scheduler

abbrev pub after_removal :
    {T : Type 0} → Outcome T → Application T → (Application T → Reply T) → Reply T
after_removal (returned t) a rest = rest (with_scheduler t a)
after_removal (raised t) a rest = failed (with_scheduler t a)

-- The loop over the transitions in handle_result_ack, and what follows it.
unfoldable pub apply_transitions :
    {T : Type 0}
    → Scheduler T
    → ℕ
    → String
    → List Transition
    → (Application T → Reply T)
    → Application T
    → Reply T
unfolding exclude_task
apply_transitions sch group detail [] rest a = rest a
apply_transitions sch group detail (transition ∷ transitions) rest a =
    let next = apply_transitions sch group detail transitions rest in
    if transition.target == "schedule_detail"
    then next (exclude_task group (or_own transition.id detail) a)
    else if transition.target == "schedule_group"
    then after_removal (unscheduled sch group (stop_group group a)) (stop_group group a) next
    else next a

abbrev pub forget_manual_status : {T : Type 0} → ℕ → Application T → Application T
forget_manual_status id a = record a { manual_execution_status = pop id a.manual_execution_status }

abbrev pub acknowledged_group :
    {T : Type 0}
    → Scheduler T
    → ResultEnvelope
    → List Transition
    → Option ExecutionStatus
    → Application T
    → Reply T
acknowledged_group sch e transitions none a = replied true a
acknowledged_group sch e transitions (some status) a =
    apply_transitions sch e.schedule_id e.detail_id transitions
      (finish_detail sch e.schedule_id e.sequence e.detail_id true) a

abbrev pub acknowledged_by :
    {T : Type 0}
    → Scheduler T
    → ResultEnvelope
    → List Transition
    → Option ℕ
    → Application T
    → Reply T
acknowledged_by sch e transitions (some id) a = replied true (forget_manual_status id a)
acknowledged_by sch e transitions none a =
    acknowledged_group sch e transitions (get e.schedule_id a.group_execution_status) a

-- handle_result_ack
unfoldable pub handle_result_ack :
    {T : Type 0} → Scheduler T → ResultEnvelope → List Transition → Application T → Reply T
unfolding apply_transitions finish_detail
handle_result_ack sch e transitions a = acknowledged_by sch e transitions e.manual_id a

abbrev pub rejected_by :
    {T : Type 0} → Scheduler T → ResultEnvelope → Option ℕ → Application T → Reply T
rejected_by sch e (some id) a = replied true (forget_manual_status id a)
rejected_by sch e none a =
    finish_detail sch e.schedule_id e.sequence e.detail_id false (stop_group e.schedule_id a)

-- handle_result_rejection
unfoldable pub handle_result_rejection :
    {T : Type 0} → Scheduler T → ResultEnvelope → Application T → Reply T
unfolding finish_detail
handle_result_rejection sch e a = rejected_by sch e e.manual_id a

-- for status in group_execution_status.values(): status["stop_after_current_sequence"] = True
unfoldable pub stop_each : Dict ℕ ExecutionStatus → Dict ℕ ExecutionStatus
stop_each [] = []
stop_each ((group, status) ∷ d) = (group, stopped status) ∷ stop_each d

abbrev pub halt : {T : Type 0} → Scheduler T → (String → Option ℕ) → Application T → Application T
halt sch number_in a = record a {
  adapter = remove_all_managed (ap_adapter sch number_in) a.adapter;
  group_execution_status = stop_each a.group_execution_status;
}

abbrev degraded_event : {T : Type 0} → Bool → Application T → Application T
degraded_event fails a = record a {
  events =
      report_event_once fails "degraded" "warning" "Agent entered degraded operation."
        (some "state:degraded") (clear_event_cause "state:recovered" a.events);
}

abbrev recovered_event : {T : Type 0} → Bool → Application T → Application T
recovered_event fails a = record a {
  events =
      report_event_once fails "recovered" "info" "Agent recovered healthy operation."
        (some "state:recovered") (clear_event_cause "state:degraded" a.events);
}

abbrev pub passes : StateTransition → OperatingState → OperatingState → Bool
passes transition from to =
    same_state transition.previous.state from && same_state transition.current.state to

-- The events of a transition.
abbrev pub announced : {T : Type 0} → Bool → StateTransition → Application T → Application T
announced fails transition a =
    if passes transition OperatingState.healthy OperatingState.degraded
    then degraded_event fails a
    else if passes transition OperatingState.degraded OperatingState.healthy
    then recovered_event fails a
    else a

abbrev pub becomes_halted : StateTransition → Bool
becomes_halted transition = same_state transition.current.state OperatingState.halted

-- _handle_operating_transition, once configure_sync has set the coordinator and the adapter.
unfoldable pub handle_operating_transition :
    {T : Type 0}
    → Scheduler T
    → (String → Option ℕ)
    → Bool
    → StateTransition
    → Application T
    → Application T
unfolding stop_each report_event_once clear_event_cause
handle_operating_transition sch number_in fails transition a =
    announced fails transition (if becomes_halted transition then halt sch number_in a else a)

-- The contexts of apply_snapshot.
unfoldable pub group_contexts :
    {T : Type 0} → Application T → Dict ℕ ExecutionStatus → List RunningContext
group_contexts a [] = []
group_contexts a ((group, status) ∷ d) =
    let rest = group_contexts a d in
    if is_running group a
    then record { context_id = status.context_id; kind = "schedule"; schedule_id = some group }
      ∷ rest
    else rest

unfoldable pub manual_contexts : Dict ℕ ManualStatus → List RunningContext
manual_contexts [] = []
manual_contexts ((id, status) ∷ d) =
    record {
      context_id = status.execution_grp_id;
      kind = "manual";
      schedule_id = some status.schedule_id;
    }
    ∷ manual_contexts d

unfoldable pub running_contexts : {T : Type 0} → Application T → List RunningContext
unfolding group_contexts manual_contexts
running_contexts a =
    group_contexts a a.group_execution_status ++ manual_contexts a.manual_execution_status

-- The marks of a plan in apply_snapshot.
unfoldable pub mark_contexts : List String → Dict ℕ ExecutionStatus → Dict ℕ ExecutionStatus
mark_contexts markers [] = []
mark_contexts markers ((group, status) ∷ d) =
    (group, if contains status.context_id markers then stopped status else status)
    ∷ mark_contexts markers d
