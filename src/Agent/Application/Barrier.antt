-- ===== src/Agent/Application/Barrier.antt =====
-- The sequences of a group run one after another: at most one of them is pending at a time.
use time_weaver.Prelude.{
  ℕ, ◌≡◌, refl, sym, ◌∙◌, inl, inr, Bool, true, false, not, ◌||◌, Option, none, some, String, List,
  [], ◌∷◌, map, Dict, get, put, pop, get-put, is_empty, nat_comparable, text_comparable, Bool-cases,
  Option-cases, length, same_refl,
}
use time_weaver.Agent.ApSchedulerAdapter.{Scheduler}
use time_weaver.Agent.Application.{
  Application, ExecutionStatus, Reply, replied, failed, is_running, execution_allowed,
  find_schedule, reserve_slots, least_key, by_sequence, or_nothing,
}
use time_weaver.Agent.Application.Calls.{state}
use time_weaver.Agent.Application.Sequences.{
  Added, added_jobs, add_jobs, remove_jobs, scheduled, reserved_then, next_tasks, execute_next_task,
  or_idle, opened, begin, start_group_execution, undone,
}
use time_weaver.Agent.Models.{ScheduleDetail, ScheduleGroup}
use time_weaver.Agent.Outbox.{ResultOutbox}
use time_weaver.Agent.SyncCoordinator.Apply.{Outcome, returned, raised}
use time_weaver.Agent.Application.Pending.{
  NonePending, IsOrdered, runs-Ordered, stops-Ordered, put-Ordered,
}

-- What a launch keeps of the invariant, where the group had nothing pending.
abbrev Good : {T : Type 0} → ℕ → Reply T → Type 0
Good g (replied true a) = IsOrdered a
Good g (replied false a) = IsOrdered a × NonePending (get g a.task_completion_status)
Good g (failed a) = IsOrdered a

pub pop_only : (n : ℕ) (ids : List String) → pop n ((n, ids) ∷ []) ≡ []
unfolding pop
pop_only n ids = rw (same_refl n) refl

module _ {T : Type 0} (sch : Scheduler T) (group sequence : ℕ) where
  undone-IsOrdered :
      (reserved : ℕ) (ids : List String) (r : Outcome T) (a : Application T)
      → IsOrdered a
      → get group a.task_completion_status ≡ some ((sequence, ids) ∷ [])
      → IsOrdered (undone group sequence reserved r a)
  undone-IsOrdered reserved ids (raised t) a o at = o
  undone-IsOrdered reserved ids (returned t) a o at =
      rw (at, pop_only sequence ids) (put-Ordered group o [] tt (λ e. tt))

  added_jobs-Good :
      (context : String) (ids : List String) (tasks : List ScheduleDetail) (added : Added T)
      (has_raised : Bool) (a : Application T)
      → IsOrdered a
      → get group a.task_completion_status ≡ some ((sequence, ids) ∷ [])
      → Good group (added_jobs sch group sequence context tasks added has_raised a)
  added_jobs-Good context ids tasks added false a o at = o
  added_jobs-Good context ids tasks added true a o at =
      undone-IsOrdered (length tasks) ids (remove_jobs sch added.job_ids added.scheduler) a o at

  scheduled-Good :
      (context : String) (tasks : List ScheduleDetail) (d : Option (Dict ℕ (List String)))
      (a : Application T)
      → IsOrdered a
      → is_running group a ≡ true
      → is_empty tasks ≡ false
      → NonePending d
      → Good group (scheduled sch group sequence context tasks d a)
  unfolding put
  scheduled-Good context tasks none a o runs some_task done = o
  scheduled-Good context tasks (some (p ∷ d)) a o runs some_task done = absurd done
  scheduled-Good context [] (some []) a o runs some_task done = cc
  scheduled-Good context (task ∷ tasks) (some []) a o runs some_task done =
      let ids = map (λ (t : ScheduleDetail). t.detail_id) (task ∷ tasks) in
      let added = add_jobs sch group sequence (task ∷ tasks) [] a.adapter.scheduler in
      added_jobs-Good context ids (task ∷ tasks) added added.has_raised _
        (put-Ordered group o ((sequence, ids) ∷ []) refl
          (λ e. let bad : true ≡ false = sym runs ∙ e in cc bad))
        (rw (get-put group group ((sequence, ids) ∷ []) a.task_completion_status, same_refl group)
          refl)

  reserved_then-Good :
      (context : String) (tasks : List ScheduleDetail) (r : ResultOutbox × Bool) (a : Application T)
      → IsOrdered a
      → is_running group a ≡ true
      → is_empty tasks ≡ false
      → NonePending (get group a.task_completion_status)
      → Good group (reserved_then sch group sequence context tasks r a)
  reserved_then-Good context tasks (outbox, false) a o runs some_task done = (o, done)
  reserved_then-Good context tasks (outbox, true) a o runs some_task done =
      scheduled-Good context tasks (get group a.task_completion_status)
        (record a { outbox = outbox }) o runs some_task done

  next_tasks-Good :
      (status : Option ExecutionStatus) (a : Application T)
      → IsOrdered a
      → is_running group a ≡ true
      → NonePending (get group a.task_completion_status)
      → Good group (next_tasks sch group sequence status a)
  next_tasks-Good none a o runs done = (o, done)
  next_tasks-Good (some status) a o runs done =
      let tasks = or_nothing (get sequence status.sequences) in
      elim (Bool-cases (is_empty tasks)) [
        | inl nothing ↦ rw nothing (o, done)
        | inr something ↦ rw something (
            reserved_then-Good status.context_id tasks (reserve_slots tasks 0 a.outbox) a o runs
              something done)
      ]

  -- A launch, with its answer taken for the group.
  or_idle-IsOrdered : (r : Reply T) → Good group r → IsOrdered (state (or_idle group r))
  or_idle-IsOrdered (replied true a) o = o
  or_idle-IsOrdered (replied false a) (o, done) = stops-Ordered group o done
  or_idle-IsOrdered (failed a) o = o

  pub launch-IsOrdered :
      (a : Application T)
      → IsOrdered a
      → is_running group a ≡ true
      → NonePending (get group a.task_completion_status)
      → IsOrdered (state (or_idle group (execute_next_task sch group sequence a)))
  unfolding execute_next_task
  launch-IsOrdered a o runs done =
      or_idle-IsOrdered _ (next_tasks-Good (get group a.group_execution_status) a o runs done)

module _ {T : Type 0} (sch : Scheduler T) where
  begin-IsOrdered :
      (context : String) (group : ℕ) (g : Option ScheduleGroup) (a : Application T)
      → IsOrdered a
      → IsOrdered (state (begin sch group context g a))
  begin-IsOrdered context group none a o = o
  begin-IsOrdered context group (some g) a o =
      elim (Option-cases (least_key (λ n. true) (by_sequence g.details []))) [
        | inl nothing ↦ rw nothing o
        | inr (n, first) ↦ rw first (
            launch-IsOrdered sch group n (opened group context g a)
              (put-Ordered group (runs-Ordered group o) [] tt (λ e. tt))
              (rw (get-put group group true a.running_tasks, same_refl group) refl)
              (rw (get-put group group [] a.task_completion_status, same_refl group) tt))
      ]

  pub start-IsOrdered :
      (context : String) (group : ℕ) (a : Application T)
      → IsOrdered a
      → IsOrdered (state (start_group_execution sch context group a))
  unfolding start_group_execution
  start-IsOrdered context group a o =
      elim (Bool-cases (not (execution_allowed a) || is_running group a)) [
        | inl kept ↦ rw kept o
        | inr goes ↦
            rw goes (begin-IsOrdered context group (find_schedule group a.current_snapshot) a o)
      ]
