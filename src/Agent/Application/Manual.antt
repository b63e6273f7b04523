-- ===== src/Agent/Application/Manual.antt =====
-- dispatch_manual of app.py, with _record_api_failure. The claim's answer, the uuid, the delivery of
-- events and the task that runs where the scheduler refuses the job are arguments.
use time_weaver.Prelude.{
  ℕ, Bool, true, false, not, ◌&&◌, Option, none, some, String, text_append, List, [], ◌∷◌, ◌++◌,
  put, ◌==◌, if◌then◌else◌, str, contains, is_blank, text_comparable, nat_comparable, Result, ok,
  error,
}
use time_weaver.Agent.ApSchedulerAdapter.{
  Scheduler, mark_manual_attempted, release_manual, is_inflight,
}
use time_weaver.Agent.ApiErrors.{
  ApiClientError, Exception, is_authentication, is_device_inactive, is_client_rejected,
  is_transient_server,
}
use time_weaver.Agent.Application.{
  Application, Launch, Reply, replied, failed, execution_allowed, find_schedule, find_manual,
  find_detail, or_kept,
}
use time_weaver.Agent.Application.Events.{report_event_once}
use time_weaver.Agent.Application.Handlers.{handle_operating_transition}
use time_weaver.Agent.Application.Sequences.{with_scheduler}
use time_weaver.Agent.Application.Tasks.{TaskRun, execute_task}
use time_weaver.Agent.Json.{Json, text, object, value_at}
use time_weaver.Agent.Models.{ManualExecution, ScheduleDetail, ScheduleGroup}
use time_weaver.Agent.OperatingState.{
  OperatingStateManager, Published, StateTransition, device_status, credential_failed,
  snapshot_failed,
}
use time_weaver.Agent.Outbox.{ResultOutbox, release_slot}
use time_weaver.Agent.Outbox.Delivery.{reserve_slot}
use time_weaver.Agent.SyncCoordinator.Apply.{Outcome, returned, raised}

-- The run of a dispatch, and what it meets.
pub record Dispatch : Type 0 where
  pub manual_id : ℕ
  pub answer : Result Exception Json
  pub uuid : String
  pub event_fails : Bool
  pub task : TaskRun

-- The listener that configure_sync registers is number zero.
abbrev pub hear_one :
    {T : Type 0}
    → Scheduler T
    → (String → Option ℕ)
    → Bool
    → ℕ × StateTransition
    → Application T
    → Application T
hear_one sch number_in fails (listener, transition) a =
    if listener == 0 then handle_operating_transition sch number_in fails transition a else a

unfoldable pub hear :
    {T : Type 0}
    → Scheduler T
    → (String → Option ℕ)
    → Bool
    → List (ℕ × StateTransition)
    → Application T
    → Application T
unfolding handle_operating_transition
hear sch number_in fails [] a = a
hear sch number_in fails (call ∷ calls) a =
    hear sch number_in fails calls (hear_one sch number_in fails call a)

-- The operation of the state manager that an API failure calls.
abbrev pub failure_of : ApiClientError → OperatingStateManager → Published
failure_of exc m =
    if is_device_inactive exc.class
    then device_status "inactive" m
    else if is_authentication exc.class
    then credential_failed "needs_enrollment" m
    else snapshot_failed exc.code m

abbrev pub published :
    {T : Type 0}
    → Scheduler T
    → (String → Option ℕ)
    → Bool
    → Published
    → Application T
    → Application T
published sch number_in fails p a =
    hear sch number_in fails p.notified
      (record a { outbox = record a.outbox { state_manager = some p.manager } })

abbrev pub recorded :
    {T : Type 0}
    → Scheduler T
    → (String → Option ℕ)
    → Bool
    → ApiClientError
    → Option OperatingStateManager
    → Application T
    → Application T
recorded sch number_in fails exc none a = a
recorded sch number_in fails exc (some m) a = published sch number_in fails (failure_of exc m) a

-- _record_api_failure
unfoldable pub record_api_failure :
    {T : Type 0}
    → Scheduler T
    → (String → Option ℕ)
    → Bool
    → ApiClientError
    → Application T
    → Application T
unfolding device_status credential_failed snapshot_failed hear
record_api_failure sch number_in fails exc a =
    recorded sch number_in fails exc a.outbox.state_manager a

abbrev pub release : {T : Type 0} → ℕ → Application T → Application T
release id a = record a { adapter = release_manual id a.adapter }

-- result_outbox.release_slot(), of a slot that is reserved, and scheduler_adapter.release_manual
abbrev pub give_back : {T : Type 0} → ℕ → Application T → Application T
give_back id a = release id (record a { outbox = or_kept (release_slot a.outbox) a.outbox })

-- The handlers of the claim's exceptions.
unfoldable pub claim_failed :
    {T : Type 0}
    → Scheduler T
    → (String → Option ℕ)
    → Bool
    → ℕ
    → Exception
    → Application T
    → Application T
unfolding record_api_failure
claim_failed sch number_in fails id (Exception.other name) a = give_back id a
claim_failed sch number_in fails id (Exception.api exc) a =
    if is_client_rejected exc.class
    then (if not (contains exc.code ("already_claimed" ∷ "not_found" ∷ []))
        then record_api_failure sch number_in fails exc (give_back id a)
        else give_back id a)
    else if is_transient_server exc.class
    then give_back id a
    else record_api_failure sch number_in fails exc (give_back id a)

abbrev filled : Option Json → Option String
filled (some (text s)) = if is_blank s then none else some s
filled _ = none

-- The claim token of an answer, if it is a text and not empty.
abbrev pub claim_token_in : Json → Option String
claim_token_in (object fields) = filled (value_at "claim_token" fields)
claim_token_in _ = none

abbrev bad_shape : {T : Type 0} → Bool → ℕ → Application T → Application T
bad_shape fails id a = record a {
  events =
      report_event_once fails "sync_error" "error" "Manual claim response was invalid."
        (some (text_append "manual-claim-shape:" (str id))) a.events;
}

-- f"manual_task:{manual_id}:{execution_grp_id}"
abbrev job_id : ℕ → String → String
job_id id uuid = text_append "manual_task:" (text_append (str id) (text_append ":" uuid))

abbrev launch_of : Dispatch → ManualExecution → ScheduleDetail → String → Launch
launch_of d m detail token = record {
  job_id = job_id d.manual_id d.uuid;
  group_id = m.schedule_id;
  sequence = 1;
  detail_id = detail.detail_id;
  manual_id = some d.manual_id;
  claim_token = some token;
  context_id = d.uuid;
}

abbrev pub noted :
    {T : Type 0} → Dispatch → ManualExecution → String → Application T → Application T
noted d m token a = record a {
  manual_execution_status =
      put d.manual_id
        (record {
          execution_grp_id = d.uuid;
          schedule_id = m.schedule_id;
          detail_id = m.detail_id;
          claim_token = token;
        })
        a.manual_execution_status;
}

abbrev pub or_failed : {T : Type 0} → Reply T → Reply T
or_failed (replied b a) = replied true a
or_failed (failed a) = failed a

-- scheduler.add_job, and execute_task in its place where it raises.
abbrev pub job_added :
    {T : Type 0}
    → Dispatch
    → ManualExecution
    → ScheduleDetail
    → String
    → Outcome T
    → Application T
    → Reply T
job_added d m detail token (returned t) a =
    replied true
      (record (with_scheduler t a) { launched = a.launched ++ launch_of d m detail token ∷ [] })
job_added d m detail token (raised t) a = or_failed (
    execute_task d.task m.schedule_id 1 detail.detail_id (some d.manual_id) (some token)
      (some d.uuid) (with_scheduler t a))

abbrev pub with_token :
    {T : Type 0}
    → Scheduler T
    → Dispatch
    → ManualExecution
    → ScheduleDetail
    → Option String
    → Application T
    → Reply T
with_token sch d m detail none a =
    replied false (bad_shape d.event_fails d.manual_id (give_back d.manual_id a))
with_token sch d m detail (some token) a =
    job_added d m detail token (sch.add_job (job_id d.manual_id d.uuid) a.adapter.scheduler)
      (noted d m token a)

abbrev pub claimed :
    {T : Type 0}
    → Scheduler T
    → (String → Option ℕ)
    → Dispatch
    → ManualExecution
    → ScheduleDetail
    → Result Exception Json
    → Application T
    → Reply T
claimed sch number_in d m detail (error exc) a =
    replied false (claim_failed sch number_in d.event_fails d.manual_id exc a)
claimed sch number_in d m detail (ok claim) a = with_token sch d m detail (claim_token_in claim) a

abbrev pub claim_with :
    {T : Type 0}
    → Scheduler T
    → (String → Option ℕ)
    → Dispatch
    → ManualExecution
    → ScheduleDetail
    → ResultOutbox × Bool
    → Application T
    → Reply T
claim_with sch number_in d m detail (outbox, false) a =
    replied false (release d.manual_id (record a { outbox = outbox }))
claim_with sch number_in d m detail (outbox, true) a =
    claimed sch number_in d m detail d.answer (record a { outbox = outbox })

abbrev pub dispatch_found :
    {T : Type 0}
    → Scheduler T
    → (String → Option ℕ)
    → Dispatch
    → ManualExecution
    → Option ScheduleDetail
    → Option ScheduleGroup
    → Application T
    → Reply T
dispatch_found sch number_in d m (some detail) (some g) a =
    claim_with sch number_in d m detail (reserve_slot a.outbox) a
dispatch_found sch number_in d m _ _ a = replied false (release d.manual_id a)

abbrev pub is_claimable : ManualExecution → Bool
is_claimable m =
    m.claimable && not (contains m.status ("done" ∷ "failed" ∷ "cancelled" ∷ "claimed" ∷ []))

abbrev pub dispatch_listed :
    {T : Type 0}
    → Scheduler T
    → (String → Option ℕ)
    → Dispatch
    → Option ManualExecution
    → Application T
    → Reply T
dispatch_listed sch number_in d none a = replied false (release d.manual_id a)
dispatch_listed sch number_in d (some m) a =
    if is_claimable m
    then dispatch_found sch number_in d m (find_detail m.schedule_id m.detail_id a.current_snapshot)
        (find_schedule m.schedule_id a.current_snapshot) a
    else replied false (release d.manual_id a)

-- dispatch_manual, once configure_sync has set the adapter and the outbox.
unfoldable pub dispatch_manual :
    {T : Type 0} → Scheduler T → (String → Option ℕ) → Dispatch → Application T → Reply T
unfolding claim_failed execute_task reserve_slot find_manual find_detail find_schedule
    report_event_once
dispatch_manual sch number_in d a =
    if not (execution_allowed a)
    then replied false (release d.manual_id a)
    else if is_inflight d.manual_id a.adapter
    then replied false a
    else dispatch_listed sch number_in d (find_manual d.manual_id a.current_snapshot)
        (record a { adapter = mark_manual_attempted d.manual_id a.adapter })
