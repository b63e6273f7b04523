-- ===== src/Agent/SyncCoordinator/Apply.antt =====
-- SyncCoordinator.apply_reconcile_plan over a scheduler adapter: its mutations, and what compensates
-- a failed one. A mutation of the adapter may raise, whatever it has done to the adapter's state.
use time_weaver.Prelude.{
  ◌≡◌, Bool, true, false, not, ◌||◌, Option, none, some, String, List, [], ◌∷◌, Dict, get, ◌==◌,
  if◌then◌else◌, starts_with, text_comparable, option_same, sort_by, text_le, map,
}
use time_weaver.Agent.OperatingState.{
  OperatingStateManager, reconciliation_failed, reconciliation_succeeded, snapshot_succeeded,
}
use time_weaver.Agent.Models.{ScheduleSnapshot}
use time_weaver.Agent.SyncCoordinator.{JobSpec, ReconcilePlan}

-- A call's outcome: the state after it, and whether it raised.
pub data Outcome (S : Type 0) : Type 0 where
  returned : S → Outcome S
  raised : S → Outcome S

-- The protocol SchedulerAdapter, on states of the adapter.
pub record SchedulerAdapter (S : Type 0) : Type 0 where
  pub add_job : String → JobSpec → S → Outcome S
  pub update_job : String → JobSpec → S → Outcome S
  pub remove_job : String → S → Outcome S
  pub list_jobs : S → Dict String JobSpec

-- What a mutation that returns does to the listed jobs.
pub record IsAdapter {S : Type 0} (a : SchedulerAdapter S) : Type 0 where
  pub added :
      (k j : String) (spec : JobSpec) (s s' : S)
      → a.add_job k spec s ≡ returned s'
      → get j (a.list_jobs s') ≡ (if k == j then some spec else get j (a.list_jobs s))
  pub updated :
      (k j : String) (spec : JobSpec) (s s' : S)
      → a.update_job k spec s ≡ returned s'
      → get j (a.list_jobs s') ≡ (if k == j then some spec else get j (a.list_jobs s))
  pub removed :
      (k j : String) (s s' : S)
      → a.remove_job k s ≡ returned s'
      → get j (a.list_jobs s') ≡ (if k == j then none else get j (a.list_jobs s))

abbrev pub then_do : {S : Type 0} → Outcome S → (S → Outcome S) → Outcome S
then_do (returned s) next = next s
then_do (raised s) next = raised s

-- for key in keys: adapter.remove_job(key)
unfoldable pub remove_each : {S : Type 0} → SchedulerAdapter S → List String → S → Outcome S
remove_each a [] s = returned s
remove_each a (key ∷ keys) s = then_do (a.remove_job key s) (remove_each a keys)

-- for spec in specs: adapter.update_job(spec.key, spec)
unfoldable pub update_each : {S : Type 0} → SchedulerAdapter S → List JobSpec → S → Outcome S
update_each a [] s = returned s
update_each a (spec ∷ specs) s = then_do (a.update_job spec.key spec s) (update_each a specs)

-- for spec in specs: adapter.add_job(spec.key, spec)
unfoldable pub add_each : {S : Type 0} → SchedulerAdapter S → List JobSpec → S → Outcome S
add_each a [] s = returned s
add_each a (spec ∷ specs) s = then_do (a.add_job spec.key spec s) (add_each a specs)

abbrev pub is_managed : String → Bool
is_managed key = starts_with key "schedule:" || starts_with key "manual:"

-- _managed_jobs
unfoldable pub managed_jobs : Dict String JobSpec → Dict String JobSpec
managed_jobs [] = []
managed_jobs ((key, spec) ∷ jobs) =
    let rest = managed_jobs jobs in if is_managed key then (key, spec) ∷ rest else rest

abbrev pub item_le : String × JobSpec → String × JobSpec → Bool
item_le a b = text_le a.0 b.0

-- for key in sorted(previous): adapter.add_job(key, previous[key])
unfoldable pub readd_each :
    {S : Type 0} → SchedulerAdapter S → List (String × JobSpec) → S → Outcome S
readd_each a [] s = returned s
readd_each a ((key, spec) ∷ items) s = then_do (a.add_job key spec s) (readd_each a items)

abbrev pub sorted_keys : Dict String JobSpec → List String
sorted_keys jobs = sort_by text_le (map (λ item. item.0) jobs)

-- _restore_jobs
unfoldable pub restore_jobs :
    {S : Type 0} → SchedulerAdapter S → Dict String JobSpec → S → Outcome S
unfolding remove_each readd_each managed_jobs
restore_jobs a previous s =
    then_do (remove_each a (sorted_keys (managed_jobs (a.list_jobs s))) s)
      (readd_each a (sort_by item_le previous))

abbrev pub after : {S : Type 0} → Outcome S → S
after (returned s) = s
after (raised s) = s

-- The loop of _remove_all_managed, which goes on after an exception.
unfoldable pub try_remove_each : {S : Type 0} → SchedulerAdapter S → List String → S → S
try_remove_each a [] s = s
try_remove_each a (key ∷ keys) s = try_remove_each a keys (after (a.remove_job key s))

-- _remove_all_managed
unfoldable pub remove_all_managed : {S : Type 0} → SchedulerAdapter S → S → S
unfolding try_remove_each managed_jobs
remove_all_managed a s = try_remove_each a (sorted_keys (managed_jobs (a.list_jobs s))) s

-- The mutations of a plan.
unfoldable pub mutate : {S : Type 0} → SchedulerAdapter S → ReconcilePlan → S → Outcome S
unfolding remove_each update_each add_each
mutate a plan s =
    then_do (then_do (remove_each a plan.removals s) (update_each a plan.updates))
      (add_each a plan.additions)

pub data ReconcileResult : Type 0 where
  applied stale apply_error restore_error : ReconcileResult

-- The coordinator with the adapter's state: SyncCoordinator.__init__.
pub record SyncCoordinator (S : Type 0) : Type 0 where
  pub current_snapshot : Option ScheduleSnapshot
  pub state_manager : Option OperatingStateManager
  pub scheduler : S

abbrev current_revision : {S : Type 0} → SyncCoordinator S → Option String
current_revision c = elim c.current_snapshot [ none ↦ none | some s ↦ some s.revision ]

abbrev with_manager :
    (OperatingStateManager → OperatingStateManager)
    → Option OperatingStateManager
    → Option OperatingStateManager
with_manager change none = none
with_manager change (some m) = some (change m)

-- The handling of a failed mutation.
unfoldable pub compensate :
    {S : Type 0}
    → SchedulerAdapter S
    → Dict String JobSpec
    → SyncCoordinator S
    → S
    → SyncCoordinator S × ReconcileResult
unfolding restore_jobs remove_all_managed
compensate a previous c s = elim (restore_jobs a previous s) [
  | returned s' ↦ (
    record c {
      scheduler = s';
      state_manager = with_manager (λ m. (reconciliation_failed true m).manager) c.state_manager;
    },
    apply_error,
  )
  | raised s' ↦ (
    record c {
      scheduler = remove_all_managed a s';
      state_manager = with_manager (λ m. (reconciliation_failed false m).manager) c.state_manager;
    },
    restore_error,
  )
]

-- SyncCoordinator.apply_reconcile_plan
unfoldable pub apply_reconcile_plan :
    {S : Type 0}
    → SchedulerAdapter S
    → (expected_old_revision : Option String) → ScheduleSnapshot
    → ReconcilePlan
    → SyncCoordinator S
    → SyncCoordinator S × ReconcileResult
unfolding mutate compensate managed_jobs
apply_reconcile_plan a expected new_snapshot plan c =
    if not (option_same (current_revision c) expected)
      || not (option_same plan.old_revision expected)
    then (c, stale)
    else elim (mutate a plan c.scheduler) [
      | raised s ↦ compensate a (managed_jobs (a.list_jobs c.scheduler)) c s
      | returned s ↦ (
        record c {
          current_snapshot = some new_snapshot;
          state_manager =
              with_manager (λ m. (reconciliation_succeeded (snapshot_succeeded m).manager).manager)
                c.state_manager;
          scheduler = s;
        },
        applied,
      )
    ]
