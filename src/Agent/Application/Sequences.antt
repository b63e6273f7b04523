-- ===== src/Agent/Application/Sequences.antt =====
-- start_group_execution, execute_next_task, _finish_detail, the handlers of results and exclude_task of
-- app.py.
use time_weaver.Prelude.{
  ℕ, Bool, true, false, not, ◌&&◌, ◌||◌, Option, none, some, String, text_append, List, [], ◌∷◌,
  ◌++◌, map, Dict, get, put, pop, ◌==◌, if◌then◌else◌, ltb, str, is_empty, text_comparable,
  nat_comparable, length,
}
use time_weaver.Agent.ApSchedulerAdapter.{Scheduler}
use time_weaver.Agent.Application.{
  Application, ExecutionStatus, Launch, Reply, replied, failed, find_schedule, execution_allowed,
  is_running, set_running, stop_group, by_sequence, least_key, or_nothing, reserve_slots,
  release_slots,
}
use time_weaver.Agent.Models.{ScheduleDetail, ScheduleGroup}
use time_weaver.Agent.Outbox.{ResultOutbox}
use time_weaver.Agent.SyncCoordinator.Apply.{Outcome, returned, raised}

abbrev pub with_scheduler : {T : Type 0} → T → Application T → Application T
with_scheduler t a = record a { adapter = record a.adapter { scheduler = t } }

abbrev pub set_completion : {T : Type 0} → ℕ → Dict ℕ (List String) → Application T → Application T
set_completion group d a = record a {
  task_completion_status = put group d a.task_completion_status;
}

-- f"{group_id}_{detail_id}_{sequence}"
abbrev pub job_id : ℕ → ℕ → ScheduleDetail → String
job_id group sequence detail =
    text_append (str group)
      (text_append "_" (text_append detail.detail_id (text_append "_" (str sequence))))

abbrev pub launch_of : ℕ → ℕ → String → ScheduleDetail → Launch
launch_of group sequence context detail = record {
  job_id = job_id group sequence detail;
  group_id = group;
  sequence = sequence;
  detail_id = detail.detail_id;
  manual_id = none;
  claim_token = none;
  context_id = context;
}

-- What the loop of execute_next_task leaves: the scheduler, the ids of the jobs that it added, and
-- whether an add_job raised.
pub record Added (T : Type 0) : Type 0 where
  pub scheduler : T
  pub job_ids : List String
  pub has_raised : Bool

abbrev pub added_one : {T : Type 0} → Outcome T → String → List String → (T → Added T) → Added T
added_one (returned t) id ids rest = rest t
added_one (raised t) id ids rest = record { scheduler = t; job_ids = ids; has_raised = true }

unfoldable pub add_jobs :
    {T : Type 0} → Scheduler T → ℕ → ℕ → List ScheduleDetail → List String → T → Added T
add_jobs sch group sequence [] ids t = record { scheduler = t; job_ids = ids; has_raised = false }
add_jobs sch group sequence (detail ∷ details) ids t =
    added_one (sch.add_job (job_id group sequence detail) t) (job_id group sequence detail) ids
      (add_jobs sch group sequence details (ids ++ job_id group sequence detail ∷ []))

-- The loop that removes the jobs again, which passes over JobLookupError.
unfoldable pub remove_jobs : {T : Type 0} → Scheduler T → List String → T → Outcome T
remove_jobs sch [] t = returned t
remove_jobs sch (id ∷ ids) t = elim (sch.remove_job id t) [
  | returned t' ↦ remove_jobs sch ids t'
  | raised t' ↦ raised t'
]

abbrev pub dropped : ℕ → Option (Dict ℕ (List String)) → Dict ℕ (List String)
dropped sequence none = []
dropped sequence (some d) = pop sequence d

-- The handler of an add_job that raised; it raises again.
abbrev pub undone : {T : Type 0} → ℕ → ℕ → ℕ → Outcome T → Application T → Application T
undone group sequence reserved (raised t) a = with_scheduler t a
undone group sequence reserved (returned t) a = stop_group group (
    set_completion group (dropped sequence (get group a.task_completion_status))
      (record (with_scheduler t a) { outbox = release_slots reserved a.outbox }))

abbrev pub added_jobs :
    {T : Type 0}
    → Scheduler T
    → ℕ
    → ℕ
    → String
    → List ScheduleDetail
    → Added T
    → Bool
    → Application T
    → Reply T
added_jobs sch group sequence context tasks added false a =
    replied true (record (with_scheduler added.scheduler a) {
      launched = a.launched ++ map (launch_of group sequence context) tasks;
    })
added_jobs sch group sequence context tasks added true a =
    failed (undone group sequence (length tasks) (remove_jobs sch added.job_ids added.scheduler) a)

-- task_completion_status[group_id][sequence] = ids, which raises KeyError for a group that has none.
abbrev pub scheduled :
    {T : Type 0}
    → Scheduler T
    → ℕ
    → ℕ
    → String
    → List ScheduleDetail
    → Option (Dict ℕ (List String))
    → Application T
    → Reply T
scheduled sch group sequence context tasks none a = failed a
scheduled sch group sequence context tasks (some d) a =
    let added = add_jobs sch group sequence tasks [] a.adapter.scheduler in
    added_jobs sch group sequence context tasks added added.has_raised
      (set_completion group (put sequence (map (λ t. t.detail_id) tasks) d) a)

abbrev pub reserved_then :
    {T : Type 0}
    → Scheduler T
    → ℕ
    → ℕ
    → String
    → List ScheduleDetail
    → ResultOutbox × Bool
    → Application T
    → Reply T
reserved_then sch group sequence context tasks (o, false) a =
    replied false (stop_group group (record a { outbox = o }))
reserved_then sch group sequence context tasks (o, true) a =
    scheduled sch group sequence context tasks (get group a.task_completion_status)
      (record a { outbox = o })

abbrev pub next_tasks :
    {T : Type 0} → Scheduler T → ℕ → ℕ → Option ExecutionStatus → Application T → Reply T
next_tasks sch group sequence none a = replied false a
next_tasks sch group sequence (some status) a =
    if is_empty (or_nothing (get sequence status.sequences))
    then replied false a
    else reserved_then sch group sequence status.context_id
        (or_nothing (get sequence status.sequences))
        (reserve_slots (or_nothing (get sequence status.sequences)) 0 a.outbox) a

-- execute_next_task
unfoldable pub execute_next_task : {T : Type 0} → Scheduler T → ℕ → ℕ → Application T → Reply T
unfolding reserve_slots release_slots add_jobs remove_jobs
execute_next_task sch group sequence a =
    next_tasks sch group sequence (get group a.group_execution_status) a

-- if not execute_next_task(...): running_tasks[group_id] = False
abbrev pub or_idle : {T : Type 0} → ℕ → Reply T → Reply T
or_idle group (replied true a) = replied true a
or_idle group (replied false a) = replied false (set_running group false a)
or_idle group (failed a) = failed a

abbrev pub new_status : String → ScheduleGroup → ExecutionStatus
new_status context g = record {
  context_id = context;
  schedule = g;
  sequences = by_sequence g.details [];
  stop_after_current_sequence = false;
}

-- The section of start_group_execution that makes the context.
abbrev pub opened : {T : Type 0} → ℕ → String → ScheduleGroup → Application T → Application T
opened group context g a = record a {
  group_execution_status = put group (new_status context g) a.group_execution_status;
  task_completion_status = put group [] a.task_completion_status;
  running_tasks = put group true a.running_tasks;
}

abbrev pub begin_at :
    {T : Type 0} → Scheduler T → ℕ → String → ScheduleGroup → Option ℕ → Application T → Reply T
begin_at sch group context g none a = replied false a
begin_at sch group context g (some sequence) a =
    or_idle group (execute_next_task sch group sequence (opened group context g a))

abbrev pub begin :
    {T : Type 0} → Scheduler T → ℕ → String → Option ScheduleGroup → Application T → Reply T
begin sch group context none a = replied false a
begin sch group context (some g) a =
    begin_at sch group context g (least_key (λ n. true) (by_sequence g.details [])) a

-- start_group_execution; `context` is the uuid4 that it draws.
unfoldable pub start_group_execution :
    {T : Type 0} → Scheduler T → String → ℕ → Application T → Reply T
unfolding execute_next_task find_schedule by_sequence least_key
start_group_execution sch context group a =
    if not (execution_allowed a) || is_running group a
    then replied false a
    else begin sch group context (find_schedule group a.current_snapshot) a

-- remaining.remove(detail_id), if it is there
unfoldable pub remove_first : String → List String → List String
remove_first id [] = []
remove_first id (x ∷ xs) = if x == id then xs else x ∷ remove_first id xs

abbrev pub later_of : Bool → ℕ → ExecutionStatus → Option ℕ
later_of next_run sequence status =
    if next_run && not status.stop_after_current_sequence
    then least_key (ltb sequence) status.sequences
    else none

-- The end of _finish_detail, with the next sequence and what is left of the group's completion.
abbrev pub advance :
    {T : Type 0} → Scheduler T → ℕ → Dict ℕ (List String) → Option ℕ → Application T → Reply T
advance sch group d none a = replied true (if is_empty d then set_running group false a else a)
advance sch group d (some sequence) a = or_idle group (execute_next_task sch group sequence a)

-- status = group_execution_status[group_id], which raises KeyError without one.
abbrev pub advance_with :
    {T : Type 0}
    → Scheduler T
    → Bool
    → ℕ
    → ℕ
    → Dict ℕ (List String)
    → Option ExecutionStatus
    → Application T
    → Reply T
advance_with sch next_run group sequence d none a = failed a
advance_with sch next_run group sequence d (some status) a =
    advance sch group d (later_of next_run sequence status) a

abbrev pub finish_in :
    {T : Type 0}
    → Scheduler T
    → Bool
    → ℕ
    → ℕ
    → Dict ℕ (List String)
    → List String
    → Application T
    → Reply T
finish_in sch next_run group sequence d remaining a =
    if is_empty remaining
    then advance_with sch next_run group sequence (pop sequence d)
        (get group a.group_execution_status) (set_completion group (pop sequence d) a)
    else replied true (set_completion group (put sequence remaining d) a)

abbrev pub finish_at :
    {T : Type 0}
    → Scheduler T
    → Bool
    → ℕ
    → ℕ
    → String
    → Dict ℕ (List String)
    → Option (List String)
    → Application T
    → Reply T
finish_at sch next_run group sequence detail d none a = replied true a
finish_at sch next_run group sequence detail d (some remaining) a =
    finish_in sch next_run group sequence d (remove_first detail remaining) a

abbrev pub finish_of :
    {T : Type 0}
    → Scheduler T
    → Bool
    → ℕ
    → ℕ
    → String
    → Option (Dict ℕ (List String))
    → Application T
    → Reply T
finish_of sch next_run group sequence detail none a = replied true a
finish_of sch next_run group sequence detail (some d) a =
    finish_at sch next_run group sequence detail d (get sequence d) a

-- _finish_detail; where it returns, what it returns is not used.
unfoldable pub finish_detail :
    {T : Type 0} → Scheduler T → ℕ → ℕ → String → Bool → Application T → Reply T
unfolding execute_next_task least_key remove_first
finish_detail sch group sequence detail next_run a =
    finish_of sch next_run group sequence detail (get group a.task_completion_status) a
