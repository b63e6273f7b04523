-- ===== src/Agent/Application/Calls.antt =====
-- The calls of app.py that change the state of the groups, in any order.
use time_weaver.Prelude.{ℕ, Bool, true, Option, String, List, [], ◌∷◌}
use time_weaver.Agent.ApSchedulerAdapter.{ApSchedulerAdapter, Scheduler}
use time_weaver.Agent.Application.{Application, Reply, replied, failed, set_running}
use time_weaver.Agent.Application.Handlers.{
  exclude_task, handle_result_ack, handle_result_rejection, handle_operating_transition,
  mark_contexts,
}
use time_weaver.Agent.Application.Sequences.{start_group_execution}
use time_weaver.Agent.Envelope.{ResultEnvelope}
use time_weaver.Agent.Models.{ScheduleSnapshot}
use time_weaver.Agent.OperatingState.{StateTransition}
use time_weaver.Agent.Outbox.{ResultOutbox, Transition}

abbrev pub state : {T : Type 0} → Reply T → Application T
state (replied b a) = a
state (failed a) = a

-- `executes` is the mark of execute_task that its group runs, and `others` is what other threads and
-- modules make of the scheduler, the outbox and the snapshot in between.
pub data Call (T : Type 0) : Type 0 where
  starts : (context : String) → (group : ℕ) → Call T
  executes : (group : ℕ) → Call T
  acknowledges : ResultEnvelope → List Transition → Call T
  rejects : ResultEnvelope → Call T
  excludes : (group : ℕ) → (detail : String) → Call T
  marks : List String → Call T
  transitions : (fails : Bool) → StateTransition → Call T
  others : ApSchedulerAdapter T → ResultOutbox → Option ScheduleSnapshot → Call T

module _ {T : Type 0} (sch : Scheduler T) (number_in : String → Option ℕ) where
  unfoldable pub perform : Call T → Application T → Application T
  perform (starts context group) a = state (start_group_execution sch context group a)
  perform (executes group) a = set_running group true a
  perform (acknowledges e ts) a = state (handle_result_ack sch e ts a)
  perform (rejects e) a = state (handle_result_rejection sch e a)
  perform (excludes group detail) a = exclude_task group detail a
  perform (marks markers) a = record a {
    group_execution_status = mark_contexts markers a.group_execution_status;
  }
  perform (transitions fails tr) a = handle_operating_transition sch number_in fails tr a
  perform (others adapter outbox snapshot) a = record a {
    adapter = adapter;
    outbox = outbox;
    current_snapshot = snapshot;
  }

  abbrev pub run : List (Call T) → Application T → Application T
  run [] a = a
  run (call ∷ calls) a = run calls (perform call a)
