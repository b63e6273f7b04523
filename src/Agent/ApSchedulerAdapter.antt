-- ===== src/Agent/ApSchedulerAdapter.antt =====
-- ApSchedulerAdapter of agent/services/time_weaver/scheduler_adapter.py. APScheduler is a parameter: a
-- record of its operations on its own states. Triggers and their times are not modelled.
pub mod Laws
mod Examples
use time_weaver.Prelude.{
  ℕ, Bool, true, false, not, ◌&&◌, ◌||◌, Option, none, some, String, List, [], ◌∷◌, Dict, get, put,
  pop, ◌==◌, if◌then◌else◌, contains, add, discard, starts_with, str, text_append, text_comparable,
  nat_comparable,
}
use time_weaver.Agent.Models.{ManualExecution, ScheduleGroup}
use time_weaver.Agent.SyncCoordinator.{JobSpec, JobValue, of_schedule, of_manual}
use time_weaver.Agent.SyncCoordinator.Apply.{Outcome, returned, raised, SchedulerAdapter, then_do}

-- What the adapter uses of APScheduler: add_job may raise, remove_job may raise JobLookupError, which
-- the adapter passes over, or another exception.
pub record Scheduler (T : Type 0) : Type 0 where
  pub add_job : (id : String) → T → Outcome T
  pub remove_job : (id : String) → T → Outcome T
  pub has_job : (id : String) → T → Bool

pub record ApSchedulerAdapter (T : Type 0) : Type 0 where
  pub scheduler : T
  pub specs : Dict String JobSpec
  pub manual_inflight : List ℕ

-- ApSchedulerAdapter._dispatch_key
abbrev pub dispatch_key : ℕ → String
dispatch_key id = text_append "manual_dispatch:" (str id)

abbrev is_schedule : JobValue → Bool
is_schedule (of_schedule g) = true
is_schedule (of_manual m) = false

-- ApSchedulerAdapter._validate: whether it accepts.
unfoldable pub is_valid_job : String → JobSpec → Bool
is_valid_job key spec =
    key == spec.key
    && (spec.kind == "schedule" && starts_with key "schedule:" && is_schedule spec.value
        || spec.kind == "manual" && starts_with key "manual:" && not (is_schedule spec.value))

abbrev pub with_scheduler :
    {T : Type 0} → ApSchedulerAdapter T → Outcome T → Outcome (ApSchedulerAdapter T)
with_scheduler s (returned t) = returned (record s { scheduler = t })
with_scheduler s (raised t) = raised (record s { scheduler = t })

-- ApSchedulerAdapter._schedule_manual_locked; on a schedule its assertion fails.
unfoldable pub schedule_manual :
    {T : Type 0} → Scheduler T → JobValue → ApSchedulerAdapter T → Outcome (ApSchedulerAdapter T)
schedule_manual sch (of_schedule g) s = raised s
schedule_manual sch (of_manual m) s =
    if contains m.manual_id s.manual_inflight || sch.has_job (dispatch_key m.manual_id) s.scheduler
    then returned s
    else with_scheduler s (sch.add_job (dispatch_key m.manual_id) s.scheduler)

-- self._specs[key] = spec
abbrev pub keep_spec : {T : Type 0} → String → JobSpec → ApSchedulerAdapter T → ApSchedulerAdapter T
keep_spec key spec s = record s { specs = put key spec s.specs }

-- ApSchedulerAdapter.add_job
unfoldable pub add_job :
    {T : Type 0}
    → Scheduler T
    → String
    → JobSpec
    → ApSchedulerAdapter T
    → Outcome (ApSchedulerAdapter T)
unfolding is_valid_job schedule_manual
add_job sch key spec s =
    if not (is_valid_job key spec)
    then raised s
    else then_do
        (if spec.kind == "schedule"
          then with_scheduler s (sch.add_job spec.key s.scheduler)
          else schedule_manual sch spec.value (keep_spec key spec s))
        (λ s'. returned (keep_spec key spec s'))

abbrev pub kind_is : String → Option JobSpec → Bool
kind_is kind none = false
kind_is kind (some spec) = spec.kind == kind

-- ApSchedulerAdapter._manual_id, with the number that the key ends in as an argument; none is the
-- ValueError of a key that ends in no number.
abbrev pub manual_id : (number_in : String → Option ℕ) → String → Option JobSpec → Option ℕ
manual_id number_in key none = number_in key
manual_id number_in key (some spec) = elim spec.value [
  | of_schedule g ↦ number_in key
  | of_manual m ↦ some m.manual_id
]

abbrev pub forget_manual :
    {T : Type 0} → Scheduler T → Option ℕ → ApSchedulerAdapter T → Outcome (ApSchedulerAdapter T)
forget_manual sch none s = raised s
forget_manual sch (some id) s =
    then_do (with_scheduler s (sch.remove_job (dispatch_key id) s.scheduler))
      (λ s'. returned (record s' { manual_inflight = discard id s'.manual_inflight }))

-- The steps of remove_job, for the spec under the key.
abbrev pub unschedule :
    {T : Type 0}
    → Scheduler T
    → String
    → Option JobSpec
    → ApSchedulerAdapter T
    → Outcome (ApSchedulerAdapter T)
unschedule sch key spec s =
    if starts_with key "schedule:" || kind_is "schedule" spec
    then with_scheduler s (sch.remove_job key s.scheduler)
    else returned s

abbrev pub unmark :
    {T : Type 0}
    → Scheduler T
    → (number_in : String → Option ℕ) → String
    → Option JobSpec
    → ApSchedulerAdapter T
    → Outcome (ApSchedulerAdapter T)
unmark sch number_in key spec s =
    if starts_with key "manual:" || kind_is "manual" spec
    then forget_manual sch (manual_id number_in key spec) s
    else returned s

abbrev pub drop_spec : {T : Type 0} → String → ApSchedulerAdapter T → ApSchedulerAdapter T
drop_spec key s = record s { specs = pop key s.specs }

-- ApSchedulerAdapter.remove_job
unfoldable pub remove_job :
    {T : Type 0}
    → Scheduler T
    → (number_in : String → Option ℕ) → String
    → ApSchedulerAdapter T
    → Outcome (ApSchedulerAdapter T)
remove_job sch number_in key s =
    let spec = get key s.specs in
    then_do (then_do (unschedule sch key spec s) (unmark sch number_in key spec))
      (λ s'. returned (drop_spec key s'))

abbrev pub refresh_manual :
    {T : Type 0}
    → Scheduler T
    → String
    → JobSpec
    → JobValue
    → ApSchedulerAdapter T
    → Outcome (ApSchedulerAdapter T)
refresh_manual sch key spec (of_schedule g) s = raised s
refresh_manual sch key spec (of_manual m) s =
    then_do (with_scheduler s (sch.remove_job (dispatch_key m.manual_id) s.scheduler))
      (λ s'. schedule_manual sch spec.value (keep_spec key spec s'))

-- ApSchedulerAdapter.update_job
unfoldable pub update_job :
    {T : Type 0}
    → Scheduler T
    → (number_in : String → Option ℕ) → String
    → JobSpec
    → ApSchedulerAdapter T
    → Outcome (ApSchedulerAdapter T)
unfolding is_valid_job schedule_manual add_job remove_job
update_job sch number_in key spec s =
    if not (is_valid_job key spec)
    then raised s
    else if spec.kind == "manual"
    then refresh_manual sch key spec spec.value s
    else then_do (remove_job sch number_in key s) (add_job sch key spec)

-- mark_manual_attempted, release_manual and manual_inflight
unfoldable pub mark_manual_attempted :
    {T : Type 0} → ℕ → ApSchedulerAdapter T → ApSchedulerAdapter T
mark_manual_attempted id s = record s { manual_inflight = add id s.manual_inflight }

unfoldable pub release_manual : {T : Type 0} → ℕ → ApSchedulerAdapter T → ApSchedulerAdapter T
release_manual id s = record s { manual_inflight = discard id s.manual_inflight }

abbrev pub is_inflight : {T : Type 0} → ℕ → ApSchedulerAdapter T → Bool
is_inflight id s = contains id s.manual_inflight

-- The loop of schedule_pending_manuals.
unfoldable pub schedule_manuals :
    {T : Type 0}
    → Scheduler T
    → Dict String JobSpec
    → ApSchedulerAdapter T
    → Outcome (ApSchedulerAdapter T)
unfolding schedule_manual
schedule_manuals sch [] s = returned s
schedule_manuals sch ((key, spec) ∷ specs) s =
    then_do (if spec.kind == "manual" then schedule_manual sch spec.value s else returned s)
      (schedule_manuals sch specs)

unfoldable pub schedule_pending_manuals :
    {T : Type 0} → Scheduler T → ApSchedulerAdapter T → Outcome (ApSchedulerAdapter T)
unfolding schedule_manuals
schedule_pending_manuals sch s = schedule_manuals sch s.specs s

-- The adapter as the coordinator sees it.
abbrev pub ap_adapter :
    {T : Type 0}
    → Scheduler T
    → (number_in : String → Option ℕ) → SchedulerAdapter (ApSchedulerAdapter T)
ap_adapter sch number_in = record {
  add_job = add_job sch;
  update_job = update_job sch number_in;
  remove_job = remove_job sch number_in;
  list_jobs = λ s. s.specs;
}
