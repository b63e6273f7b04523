-- ===== src/Agent/Application.antt =====
-- agent/services/time_weaver/app.py: the execution of schedule groups by sequence. The module's
-- globals are one record; APScheduler is the parameter of ApSchedulerAdapter, and `launched` lists the
-- jobs that the functions have added to it and kept, with their arguments. The state manager is the one
-- that the outbox holds, as configure_sync gives both the same.
pub mod Events
pub mod Sequences
pub mod Handlers
pub mod Tasks
pub mod Access
pub mod Manual
pub mod Calls
pub mod Pending
pub mod Barrier
pub mod Runs
pub mod Halting
pub mod Halted
pub mod Slots
pub mod Balance
pub mod Landing
pub mod Dispatches
pub mod Latches
pub mod Stuck
mod Sample
mod Examples
use time_weaver.Prelude.{
  ℕ, zero, suc, Bool, true, false, not, ◌&&◌, ◌||◌, Option, none, some, String, text_append, List,
  [], ◌∷◌, ◌++◌, map, Dict, get, put, pop, ◌==◌, if◌then◌else◌, ltb, leb, str, is_empty,
  text_comparable, nat_comparable, Result, ok, error,
}
use time_weaver.Agent.ApSchedulerAdapter.{ApSchedulerAdapter, Scheduler}
use time_weaver.Agent.Application.Events.{EventReporter}
use time_weaver.Agent.Models.{ScheduleDetail, ScheduleGroup, ScheduleSnapshot, ManualExecution}
use time_weaver.Agent.OperatingState.{OperatingStateManager, value}
use time_weaver.Agent.Outbox.{ResultOutbox, release_slot}
use time_weaver.Agent.Outbox.Delivery.{reserve_slot}
use time_weaver.Agent.SyncCoordinator.Apply.{Outcome, returned, raised}

-- An entry of group_execution_status.
pub record ExecutionStatus : Type 0 where
  pub context_id : String
  pub schedule : ScheduleGroup
  pub sequences : Dict ℕ (List ScheduleDetail)
  pub stop_after_current_sequence : Bool

-- An entry of manual_execution_status.
pub record ManualStatus : Type 0 where
  pub execution_grp_id : String
  pub schedule_id : ℕ
  pub detail_id : String
  pub claim_token : String

-- A job with the arguments of execute_task.
pub record Launch : Type 0 where
  pub job_id : String
  pub group_id : ℕ
  pub sequence : ℕ
  pub detail_id : String
  pub manual_id : Option ℕ
  pub claim_token : Option String
  pub context_id : String

pub record Application (T : Type 0) : Type 0 where
  pub adapter : ApSchedulerAdapter T
  pub outbox : ResultOutbox
  pub current_snapshot : Option ScheduleSnapshot
  pub running_tasks : Dict ℕ Bool
  pub group_execution_status : Dict ℕ ExecutionStatus
  pub task_completion_status : Dict ℕ (Dict ℕ (List String))
  pub manual_execution_status : Dict ℕ ManualStatus
  pub events : EventReporter
  pub launched : List Launch

-- What a function returns, or that it raises, with the globals that it leaves.
pub data Reply (T : Type 0) : Type 0 where
  replied : Bool → Application T → Reply T
  failed : Application T → Reply T

-- next((item for item in items if test(item)), None)
unfoldable pub first_where {ℓ} : {A : Type ℓ} → (A → Bool) → List A → Option A
first_where test [] = none
first_where test (item ∷ items) = if test item then some item else first_where test items

abbrev groups_in : Option ScheduleSnapshot → List ScheduleGroup
groups_in none = []
groups_in (some snapshot) = snapshot.schedules

abbrev manuals_in : Option ScheduleSnapshot → List ManualExecution
manuals_in none = []
manuals_in (some snapshot) = snapshot.manual_runs

-- _find_schedule
unfoldable pub find_schedule : ℕ → Option ScheduleSnapshot → Option ScheduleGroup
unfolding first_where
find_schedule id snapshot = first_where (λ g. g.schedule_id == id) (groups_in snapshot)

-- _find_manual
unfoldable pub find_manual : ℕ → Option ScheduleSnapshot → Option ManualExecution
unfolding first_where
find_manual id snapshot = first_where (λ m. m.manual_id == id) (manuals_in snapshot)

-- _find_detail
abbrev detail_in : String → Option ScheduleGroup → Option ScheduleDetail
detail_in id none = none
detail_in id (some g) = first_where (λ d. d.detail_id == id) g.details

unfoldable pub find_detail : ℕ → String → Option ScheduleSnapshot → Option ScheduleDetail
unfolding first_where find_schedule
find_detail schedule id snapshot = detail_in id (find_schedule schedule snapshot)

-- operating_state_manager is not None and operating_state_manager.execution_allowed()
abbrev allowed_by : Option OperatingStateManager → Bool
allowed_by none = false
allowed_by (some m) = (value m).execution_allowed

abbrev pub execution_allowed : {T : Type 0} → Application T → Bool
execution_allowed a = allowed_by a.outbox.state_manager

abbrev is_true : Option Bool → Bool
is_true none = false
is_true (some b) = b

-- running_tasks.get(group_id), as a truth value
abbrev pub is_running : {T : Type 0} → ℕ → Application T → Bool
is_running group a = is_true (get group a.running_tasks)

abbrev pub set_running : {T : Type 0} → ℕ → Bool → Application T → Application T
set_running group running a = record a { running_tasks = put group running a.running_tasks }

abbrev stopped : ExecutionStatus → ExecutionStatus
stopped status = record status { stop_after_current_sequence = true }

abbrev with_status :
    Option ExecutionStatus
    → (ExecutionStatus → ExecutionStatus)
    → ℕ
    → Dict ℕ ExecutionStatus
    → Dict ℕ ExecutionStatus
with_status none change group d = d
with_status (some status) change group d = put group (change status) d

-- A change of the group's status, where it has one.
abbrev pub change_status :
    {T : Type 0} → (ExecutionStatus → ExecutionStatus) → ℕ → Application T → Application T
change_status change group a = record a {
  group_execution_status =
      with_status (get group a.group_execution_status) change group a.group_execution_status;
}

-- status["stop_after_current_sequence"] = True
abbrev pub stop_group : {T : Type 0} → ℕ → Application T → Application T
stop_group = change_status stopped

abbrev or_nothing : {A : Type 0} → Option (List A) → List A
or_nothing none = []
or_nothing (some items) = items

-- sequences.setdefault(detail.exec_sequence, []).append(detail), for each detail
unfoldable pub by_sequence :
    List ScheduleDetail → Dict ℕ (List ScheduleDetail) → Dict ℕ (List ScheduleDetail)
by_sequence [] d = d
by_sequence (detail ∷ details) d =
    by_sequence details
      (put detail.exec_sequence (or_nothing (get detail.exec_sequence d) ++ detail ∷ []) d)

abbrev or_smaller : ℕ → Option ℕ → ℕ
or_smaller n none = n
or_smaller n (some k) = if ltb k n then k else n

-- The least key that a test takes, if one is taken.
unfoldable pub least_key : {A : Type 0} → (ℕ → Bool) → Dict ℕ A → Option ℕ
least_key test [] = none
least_key test ((n, x) ∷ d) =
    let rest = least_key test d in if test n then some (or_smaller n rest) else rest

-- for _ in range(n): result_outbox.release_slot(), of slots that are reserved, so that it returns
abbrev or_kept : Result String ResultOutbox → ResultOutbox → ResultOutbox
or_kept (ok o') o = o'
or_kept (error e) o = o

unfoldable pub release_slots : ℕ → ResultOutbox → ResultOutbox
release_slots zero o = o
release_slots (suc n) o = release_slots n (or_kept (release_slot o) o)

abbrev pub reserved_or_back :
    (ResultOutbox → ResultOutbox × Bool) → ℕ → ResultOutbox × Bool → ResultOutbox × Bool
reserved_or_back rest reserved (o, true) = rest o
reserved_or_back rest reserved (o, false) = (release_slots reserved o, false)

-- The loop of execute_next_task that reserves a slot for each task, or gives back those it has.
unfoldable pub reserve_slots : {A : Type 0} → List A → ℕ → ResultOutbox → ResultOutbox × Bool
unfolding release_slots reserve_slot
reserve_slots [] reserved o = (o, true)
reserve_slots (task ∷ tasks) reserved o =
    reserved_or_back (reserve_slots tasks (suc reserved)) reserved (reserve_slot o)
