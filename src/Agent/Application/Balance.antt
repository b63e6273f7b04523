-- ===== src/Agent/Application/Balance.antt =====
-- execute_next_task keeps a slot for each result that it waits for, and no other.
use time_weaver.Prelude.{
  ℕ, ◌≡◌, refl, sym, ap, ◌∙◌, inl, inr, Bool, true, false, Option, none, some, String, List, [],
  ◌∷◌, map, Dict, get, put, if◌then◌else◌, is_empty, nat_comparable, text_comparable, arith,
  Bool-cases, length, get-put, same_refl, ◌≢◌,
}
use time_weaver.Agent.ApSchedulerAdapter.{Scheduler}
use time_weaver.Agent.Application.{
  Application, ExecutionStatus, Reply, replied, failed, reserve_slots, or_nothing,
}
use time_weaver.Agent.Application.Sequences.{
  Added, added_jobs, add_jobs, remove_jobs, scheduled, reserved_then, next_tasks, execute_next_task,
  undone,
}
use time_weaver.Agent.Models.{ScheduleDetail}
use time_weaver.Agent.Outbox.{ResultOutbox}
use time_weaver.Agent.SyncCoordinator.Apply.{Outcome, returned, raised}
use time_weaver.Agent.Application.Slots.{
  Counts, counts, more_by, reserve_slots-counts, release_slots-counts,
}

-- How many results of a sequence the group waits for.
abbrev count_in : ℕ → Option (Dict ℕ (List String)) → ℕ
count_in sequence none = 0
count_in sequence (some d) = length (or_nothing (get sequence d))

abbrev pub awaited : {T : Type 0} → ℕ → ℕ → Application T → ℕ
awaited group sequence a = count_in sequence (get group a.task_completion_status)

-- A launch that returns true reserves a slot for each result awaited, and any other none.
abbrev pub Balanced : {T : Type 0} → ℕ → ℕ → Counts → Reply T → Type 0
Balanced group sequence c (replied true a) = counts a.outbox ≡ more_by (awaited group sequence a) c
Balanced group sequence c (replied false a) = counts a.outbox ≡ c
Balanced group sequence c (failed a) = counts a.outbox ≡ c

-- No remove_job of the scheduler raises anything but JobLookupError.
abbrev pub Removes : {T : Type 0} → Scheduler T → Type 0
Removes {T} sch = (id : String) (t : T) → (t' : T) × (sch.remove_job id t ≡ returned t')

remove_jobs-returned :
    {T : Type 0} (sch : Scheduler T) (ids : List String) (t : T)
    → Removes sch
    → (t' : T) × (remove_jobs sch ids t ≡ returned t')
unfolding remove_jobs
remove_jobs-returned sch [] t removes = (t, refl)
remove_jobs-returned sch (id ∷ ids) t removes =
    let (t', e) = removes id t in
    let (t'', rest) = remove_jobs-returned sch ids t' removes in (t'', rw (e, remove_jobs) rest)

length-map : {A B : Type 0} (f : A → B) (xs : List A) → length (map f xs) ≡ length xs
length-map f [] = refl
length-map f (x ∷ xs) = omega (arith, length-map f xs)

get-put_self : {V : Type 0} (k : ℕ) (v : V) (d : Dict ℕ V) → get k (put k v d) ≡ some v
get-put_self k v d = rw (get-put k k v d, same_refl k) refl

module _ {T : Type 0} (sch : Scheduler T) (removes : Removes sch) (group sequence : ℕ)
    (c : Counts) where
  undone-counts :
      (reserved : ℕ) (r : Outcome T) (t' : T) (a : Application T)
      → r ≡ returned t'
      → counts a.outbox ≡ more_by reserved c
      → counts (undone group sequence reserved r a).outbox ≡ c
  undone-counts reserved (raised t) t' a e held = cc
  undone-counts reserved (returned t) t' a e held = release_slots-counts reserved a.outbox c held

  added_jobs-Balanced :
      (context : String) (tasks : List ScheduleDetail) (d : Dict ℕ (List String)) (added : Added T)
      (has_raised : Bool) (a : Application T)
      → counts a.outbox ≡ more_by (length tasks) c
      → get group a.task_completion_status
        ≡ some (put sequence (map (λ (t : ScheduleDetail). t.detail_id) tasks) d)
      → Balanced group sequence c (added_jobs sch group sequence context tasks added has_raised a)
  added_jobs-Balanced context tasks d added false a held at =
      let ids = map (λ (t : ScheduleDetail). t.detail_id) tasks in
      rw (at, get-put_self sequence ids d)
        (held
          ∙ ap (λ (n : ℕ). more_by n c)
              (sym (length-map (λ (t : ScheduleDetail). t.detail_id) tasks)))
  added_jobs-Balanced context tasks d added true a held at =
      let (t', e) = remove_jobs-returned sch added.job_ids added.scheduler removes in
      undone-counts (length tasks) (remove_jobs sch added.job_ids added.scheduler) t' a e held

  scheduled-Balanced :
      (context : String) (tasks : List ScheduleDetail) (d : Option (Dict ℕ (List String)))
      (a : Application T)
      → d ≢ none
      → counts a.outbox ≡ more_by (length tasks) c
      → Balanced group sequence c (scheduled sch group sequence context tasks d a)
  scheduled-Balanced context tasks none a known held = absurd (known refl)
  scheduled-Balanced context tasks (some d) a known held =
      let ids = map (λ (t : ScheduleDetail). t.detail_id) tasks in
      let added = add_jobs sch group sequence tasks [] a.adapter.scheduler in
      added_jobs-Balanced context tasks d added added.has_raised _ held
        (get-put_self group (put sequence ids d) a.task_completion_status)

  reserved_then-Balanced :
      (context : String) (tasks : List ScheduleDetail) (r : ResultOutbox × Bool) (a : Application T)
      → get group a.task_completion_status ≢ none
      → counts r.0 ≡ more_by (if r.1 then length tasks else 0) c
      → Balanced group sequence c (reserved_then sch group sequence context tasks r a)
  reserved_then-Balanced context tasks (outbox, false) a known held = held ∙ ground arith
  reserved_then-Balanced context tasks (outbox, true) a known held =
      scheduled-Balanced context tasks (get group a.task_completion_status)
        (record a { outbox = outbox }) known held

  next_tasks-Balanced :
      (status : Option ExecutionStatus) (a : Application T)
      → get group a.task_completion_status ≢ none
      → counts a.outbox ≡ c
      → Balanced group sequence c (next_tasks sch group sequence status a)
  next_tasks-Balanced none a known held = held
  next_tasks-Balanced (some status) a known held =
      let tasks = or_nothing (get sequence status.sequences) in
      elim (Bool-cases (is_empty tasks)) [
        | inl nothing ↦ rw nothing held
        | inr something ↦ rw something (
            reserved_then-Balanced status.context_id tasks (reserve_slots tasks 0 a.outbox) a known
              (reserve_slots-counts tasks 0 a.outbox c (ground (arith, held))
                ∙ ap (λ (n : ℕ). more_by (if (reserve_slots tasks 0 a.outbox).1 then n else 0) c)
                    (omega arith)))
      ]

-- For a group that has been started, and a scheduler whose remove_job raises nothing but
-- JobLookupError: a call of execute_next_task that returns true has reserved one slot for each result
-- of the sequence that the group waits for after it; one that returns false or raises leaves the
-- numbers of reserved slots and of queued results as they were.
pub execute_next_task-Balanced :
    {T : Type 0} (sch : Scheduler T) (group sequence : ℕ) (a : Application T)
    → Removes sch
    → get group a.task_completion_status ≢ none
    → Balanced group sequence (counts a.outbox) (execute_next_task sch group sequence a)
unfolding execute_next_task
execute_next_task-Balanced sch group sequence a removes known =
    next_tasks-Balanced sch removes group sequence (counts a.outbox)
      (get group a.group_execution_status) a known refl
