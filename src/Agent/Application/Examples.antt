-- ===== src/Agent/Application/Examples.antt =====
-- The theorems on app.py at a small agent: one group of two sequences, and a manual run.
use time_weaver.Prelude.{
  ◌+◌, ◌≤◌, ◌≡◌, refl, ap, ◌≢◌, true, false, none, some, String, List, [], ◌∷◌, get, put, ok,
  discard, contains, if◌then◌else◌, nat_comparable, text_comparable,
}
use time_weaver.Agent.Application.{Application, replied, failed, execution_allowed, is_running}
use time_weaver.Agent.Application.Balance.{Balanced, execute_next_task-Balanced}
use time_weaver.Agent.Application.Calls.{starts, executes, acknowledges, state, run}
use time_weaver.Agent.Application.Dispatches.{Fits, dispatch_manual-Fits}
use time_weaver.Agent.Application.Halted.{due, rejected, arrive_all, halted-launched}
use time_weaver.Agent.Application.Handlers.{handle_operating_transition}
use time_weaver.Agent.Application.Latches.{sent_of, clearings, sent_of-run}
use time_weaver.Agent.Application.Latches as Latches
use time_weaver.Agent.Application.Manual.{Dispatch, dispatch_manual}
use time_weaver.Agent.Application.Pending.{IsOrdered}
use time_weaver.Agent.Application.Runs.{run-IsOrdered}
use time_weaver.Agent.Application.Sequences.{execute_next_task, start_group_execution}
use time_weaver.Agent.Application.Slots.{counts}
use time_weaver.Agent.Application.Stuck.{start_group_execution-failed}
use time_weaver.Agent.Json.{object, member, text, end}
use time_weaver.Agent.OperatingState.{
  OperatingState, OperatingStateManager, StateTransition, value, state_of, same_state,
}
use time_weaver.Agent.Application.Sample.{
  taking, refusing, no_number, healthy, closed, no_events, agent, result,
}

agent-IsOrdered : (m : OperatingStateManager) → IsOrdered (agent m)
unfolding get
agent-IsOrdered m = record { single = λ g. tt; idle = λ g e. tt }

run-IsOrdered_example :
    IsOrdered (
      run taking no_number
        (starts "c" 1 ∷ executes 1 ∷ acknowledges result [] ∷ [])
        (agent healthy))
run-IsOrdered_example =
    run-IsOrdered taking no_number (starts "c" 1 ∷ executes 1 ∷ acknowledges result [] ∷ [])
      (agent healthy) (agent-IsOrdered healthy)

abbrev halts : StateTransition
halts = record { previous = value healthy; current = value closed }

halts_closes : (value closed).state ≡ OperatingState.halted
unfolding value state_of
halts_closes = refl

closed_blocks : execution_allowed (agent closed) ≡ false
unfolding value state_of
closed_blocks = refl

halted-launched_example :
    let after =
      arrive_all taking
        (due "c" 1 ∷ rejected result ∷ [])
        (handle_operating_transition taking no_number true halts (agent closed)) in
    (after.launched ≡ []) × (after.outbox ≡ (agent closed).outbox)
halted-launched_example =
    halted-launched taking no_number true halts (due "c" 1 ∷ rejected result ∷ []) (agent closed)
      (ap (λ (s : OperatingState). same_state s OperatingState.halted) halts_closes) closed_blocks

abbrev reports : List Latches.Call
reports =
    Latches.reports true "degraded" "warning" "m" (some "state:degraded")
    ∷ Latches.reports false "degraded" "warning" "m" (some "state:degraded")
    ∷ Latches.clears "state:degraded"
    ∷ []

sent_of-run_example :
    sent_of "state:degraded" (Latches.run reports no_events).sent
      + (if contains "state:degraded" no_events.event_causes then 1 else 0)
    ≤ sent_of "state:degraded" no_events.sent + clearings "state:degraded" reports + 1
sent_of-run_example = sent_of-run "state:degraded" reports no_events refl

abbrev opened_agent : Application (List String)
opened_agent = record (agent healthy) { task_completion_status = (1, []) ∷ [] }

opened_known : get 1 opened_agent.task_completion_status ≢ none
unfolding get
opened_known e = cc e

execute_next_task-Balanced_example :
    Balanced 1 1 (counts opened_agent.outbox) (execute_next_task taking 1 1 opened_agent)
execute_next_task-Balanced_example =
    execute_next_task-Balanced taking 1 1 opened_agent (λ id t. (discard id t, refl)) opened_known

abbrev dispatch : Dispatch
dispatch = record {
  manual_id = 5;
  answer = ok (object (member "claim_token" (text "tok") end));
  uuid = "u";
  event_fails = false;
  task = record { started_at = "s"; finished_at = "f"; outcome = none; environment = none };
}

dispatch_manual-Fits_example :
    Fits 5 (agent healthy) (dispatch_manual taking no_number dispatch (agent healthy))
dispatch_manual-Fits_example = dispatch_manual-Fits taking no_number dispatch (agent healthy)

abbrev stuck : Application (List String)
stuck = state (start_group_execution refusing "c" 1 (agent healthy))

stuck_raises : start_group_execution refusing "c" 1 (agent healthy) ≡ failed stuck
unfolding start_group_execution value state_of get put
stuck_raises = refl

start_group_execution-failed_example :
    (is_running 1 stuck ≡ true) × (start_group_execution taking "d" 1 stuck ≡ replied false stuck)
start_group_execution-failed_example =
    start_group_execution-failed refusing taking "c" "d" 1 (agent healthy) stuck stuck_raises
