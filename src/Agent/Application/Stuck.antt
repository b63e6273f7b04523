-- ===== src/Agent/Application/Stuck.antt =====
-- A start of a group that raises: what it leaves behind.
use time_weaver.Prelude.{
  ℕ, ◌≡◌, refl, sym, ap, ◌∙◌, inl, inr, Bool, true, false, not, ◌||◌, Option, none, some, String,
  List, [], Dict, get, get-put, is_empty, nat_comparable, arith, Bool-cases, same_refl, length,
}
use time_weaver.Agent.ApSchedulerAdapter.{Scheduler}
use time_weaver.Agent.Application.{
  Application, ExecutionStatus, Reply, replied, failed, is_running, execution_allowed,
  find_schedule, reserve_slots, least_key, by_sequence, or_nothing,
}
use time_weaver.Agent.Application.Calls.{state}
use time_weaver.Agent.Application.Sequences.{
  Added, added_jobs, add_jobs, remove_jobs, scheduled, reserved_then, next_tasks, execute_next_task,
  or_idle, opened, begin, begin_at, start_group_execution, undone,
}
use time_weaver.Agent.Models.{ScheduleDetail, ScheduleGroup}
use time_weaver.Agent.Outbox.{ResultOutbox}
use time_weaver.Agent.SyncCoordinator.Apply.{Outcome, returned, raised}

module _ {T : Type 0} (sch : Scheduler T) (group sequence : ℕ) where
  undone-running :
      (reserved : ℕ) (r : Outcome T) (a : Application T)
      → (undone group sequence reserved r a).running_tasks ≡ a.running_tasks
  undone-running reserved (raised t) a = refl
  undone-running reserved (returned t) a = refl

  added_jobs-running :
      (context : String) (tasks : List ScheduleDetail) (added : Added T) (has_raised : Bool)
      (a : Application T)
      → (state (added_jobs sch group sequence context tasks added has_raised a)).running_tasks
        ≡ a.running_tasks
  added_jobs-running context tasks added false a = refl
  added_jobs-running context tasks added true a =
      undone-running (length tasks) (remove_jobs sch added.job_ids added.scheduler) a

  scheduled-running :
      (context : String) (tasks : List ScheduleDetail) (d : Option (Dict ℕ (List String)))
      (a : Application T)
      → (state (scheduled sch group sequence context tasks d a)).running_tasks ≡ a.running_tasks
  scheduled-running context tasks none a = refl
  scheduled-running context tasks (some d) a =
      let added = add_jobs sch group sequence tasks [] a.adapter.scheduler in
      added_jobs-running context tasks added added.has_raised _

  reserved_then-running :
      (context : String) (tasks : List ScheduleDetail) (r : ResultOutbox × Bool) (a : Application T)
      → (state (reserved_then sch group sequence context tasks r a)).running_tasks ≡ a.running_tasks
  reserved_then-running context tasks (outbox, false) a = refl
  reserved_then-running context tasks (outbox, true) a =
      scheduled-running context tasks (get group a.task_completion_status)
        (record a { outbox = outbox })

  next_tasks-running :
      (status : Option ExecutionStatus) (a : Application T)
      → (state (next_tasks sch group sequence status a)).running_tasks ≡ a.running_tasks
  next_tasks-running none a = refl
  next_tasks-running (some status) a =
      let tasks = or_nothing (get sequence status.sequences) in
      elim (Bool-cases (is_empty tasks)) [
        | inl nothing ↦ rw nothing refl
        | inr something ↦
            rw something
              (reserved_then-running status.context_id tasks (reserve_slots tasks 0 a.outbox) a)
      ]

  or_idle-failed : (r : Reply T) (a : Application T) → or_idle group r ≡ failed a → r ≡ failed a
  or_idle-failed (replied true b) a e = e
  or_idle-failed (replied false b) a e = cc
  or_idle-failed (failed b) a e = e

module _ {T : Type 0} (sch : Scheduler T) (group : ℕ) where
  launch_failed-running :
      (sequence : ℕ) (a after : Application T)
      → or_idle group (execute_next_task sch group sequence a) ≡ failed after
      → after.running_tasks ≡ a.running_tasks
  unfolding execute_next_task
  launch_failed-running sequence a after e =
      let inner =
        or_idle-failed sch group sequence (execute_next_task sch group sequence a) after e in
      ap (λ (r : Reply T). (state r).running_tasks) (sym inner)
      ∙ next_tasks-running sch group sequence (get group a.group_execution_status) a

  begin_at-failed-running :
      (context : String) (g : ScheduleGroup) (first : Option ℕ) (a after : Application T)
      → begin_at sch group context g first a ≡ failed after
      → is_running group after ≡ true
  begin_at-failed-running context g none a after e = cc
  begin_at-failed-running context g (some n) a after e =
      rw
        (
          launch_failed-running n (opened group context g a) after e,
          get-put group group true a.running_tasks,
          same_refl group,
        )
        refl

  begin-failed-running :
      (context : String) (g : Option ScheduleGroup) (a after : Application T)
      → begin sch group context g a ≡ failed after
      → is_running group after ≡ true
  begin-failed-running context none a after e = cc
  begin-failed-running context (some g) a after e =
      begin_at-failed-running context g (least_key (λ n. true) (by_sequence g.details [])) a after e

-- A start of a group that raises leaves the group marked as running, and with that every later start
-- of the group, with any scheduler and context, returns false and changes nothing.
pub start_group_execution-failed :
    {T : Type 0} (sch later : Scheduler T) (context again : String) (group : ℕ)
    (a after : Application T)
    → start_group_execution sch context group a ≡ failed after
    → (is_running group after ≡ true)
      × (start_group_execution later again group after ≡ replied false after)
unfolding start_group_execution
start_group_execution-failed sch later context again group a after e =
    elim (Bool-cases (not (execution_allowed a) || is_running group a)) [
      | inl kept ↦
          let bad : replied false a ≡ failed after = rw (kept, start_group_execution) at e in cc bad
      | inr goes ↦
          let began : begin sch group context (find_schedule group a.current_snapshot) a
              ≡ failed after =
            rw (goes, start_group_execution) at e in
          let runs =
            begin-failed-running sch group context (find_schedule group a.current_snapshot) a after
              began in
          let stays : (not (execution_allowed after) || is_running group after) ≡ true =
            ground (arith, runs) in
          (runs, rw stays refl)
    ]
