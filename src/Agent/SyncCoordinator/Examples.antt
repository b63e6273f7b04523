-- ===== src/Agent/SyncCoordinator/Examples.antt =====
-- Plans on a scheduler that is a dict of jobs: tests and instances.
use time_weaver.Prelude.{
  List, ℕ, ◌≡◌, refl, false, none, some, String, [], ◌∷◌, Dict, get, put, pop, get-put, get-pop,
  Distinct, ◌==◌, if◌then◌else◌, text_comparable, nat_comparable, arith, sort_by, str, eq_iff,
}
use time_weaver.Agent.Models.{CronFields, ScheduleGroup, ScheduleSnapshot}
use time_weaver.Agent.SyncCoordinator.{
  JobSpec, Fingerprints, ReconcilePlan, schedule_key, manual_key, schedules_of, managed_manuals_of,
  build_reconcile_plan, schedule_spec,
}
use time_weaver.Agent.SyncCoordinator.Apply.{
  Outcome, returned, raised, SchedulerAdapter, IsAdapter, SyncCoordinator, applied, apply_error,
  apply_reconcile_plan,
}
use time_weaver.Agent.SyncCoordinator.Plans.{schedule_kind, manual_kind, wanted, schedule-ne-manual}
use time_weaver.Agent.SyncCoordinator.Converges.{NoCollision, apply_reconcile_plan-converges}
use time_weaver.Agent.SyncCoordinator.Compensation.{apply_reconcile_plan-restores}

-- A dict of jobs, whose update of one key raises after it has lost the job.
abbrev raises_on : String → SchedulerAdapter (Dict String JobSpec)
raises_on bad = record {
  add_job = λ k spec d. returned (put k spec d);
  update_job = λ k spec d. if k == bad then raised (pop k d) else returned (put k spec d);
  remove_job = λ k d. returned (pop k d);
  list_jobs = λ d. d;
}

abbrev the : Outcome (Dict String JobSpec) → Dict String JobSpec
the (returned d) = d
the (raised d) = d

raises_on-IsAdapter : (bad : String) → IsAdapter (raises_on bad)
raises_on-IsAdapter bad = record {
  added = λ k j spec s s' h. ground (arith, h, get-put k j spec s);
  updated = λ k j spec s s' h. ground (arith, h, get-put k j spec s);
  removed = λ k j s s' h. ground (arith, h, get-pop k j s);
}

abbrev hourly : CronFields
hourly = record {
  year = "*";
  month = "*";
  day_of_week = "*";
  day = "*";
  hour = "*";
  minute = "0";
  second = "0";
}

abbrev group : ℕ → String → ScheduleGroup
group id name = record {
  schedule_id = id;
  name = name;
  cron = hourly;
  is_error_stop = false;
  details = [];
}

abbrev names : Fingerprints
names = record { of_schedule = λ g. g.name; of_manual = λ m. m.status }

abbrev snapshot : String → List ScheduleGroup → ScheduleSnapshot
snapshot revision schedules = record {
  schema_version = "1";
  revision = revision;
  etag = revision;
  server_time = 50;
  generated_at = 50;
  device = record {
    device_id = 1;
    device_name = "press";
    status = "active";
    known_agent_version = none;
  };
  schedules = schedules;
  manual_runs = [];
}

abbrev before : ScheduleSnapshot
before = snapshot "r1" (group 1 "a" ∷ group 2 "b" ∷ [])

abbrev later : ScheduleSnapshot
later = snapshot "r2" (group 2 "c" ∷ group 3 "d" ∷ [])

abbrev held : Dict String JobSpec
held =
    (schedule_key 1, schedule_spec names (group 1 "a"))
    ∷ (schedule_key 2, schedule_spec names (group 2 "b"))
    ∷ []

abbrev start : SyncCoordinator (Dict String JobSpec)
start = record { current_snapshot = some before; state_manager = none; scheduler = held }

abbrev plan : ReconcilePlan
plan = build_reconcile_plan names (some before) later []

plan_removals : plan.removals ≡ "schedule:1" ∷ []
unfolding build_reconcile_plan schedules_of managed_manuals_of str get put sort_by
plan_removals = refl

plan_updates : plan.updates ≡ schedule_spec names (group 2 "c") ∷ []
unfolding build_reconcile_plan schedules_of managed_manuals_of str get put sort_by schedule_spec
plan_updates = refl

abbrev finish : SyncCoordinator (Dict String JobSpec)
finish = record {
  current_snapshot = some later;
  state_manager = none;
  scheduler =
      (schedule_key 2, schedule_spec names (group 2 "c"))
      ∷ (schedule_key 3, schedule_spec names (group 3 "d"))
      ∷ [];
}

applies : apply_reconcile_plan (raises_on "") (some "r1") later plan start ≡ (finish, applied)
unfolding apply_reconcile_plan build_reconcile_plan schedules_of managed_manuals_of str get put pop
    sort_by schedule_spec
applies = refl

-- The update of the second schedule loses its job and raises; its removal had been done.
restores :
    apply_reconcile_plan (raises_on "schedule:2") (some "r1") later plan start
    ≡ (start, apply_error)
unfolding apply_reconcile_plan build_reconcile_plan schedules_of managed_manuals_of str get put pop
    sort_by schedule_spec
restores = refl

held-Distinct : Distinct held
held-Distinct = (unfold get str in refl, (unfold get in refl, tt))

apply_reconcile_plan-restores_example :
    (get "schedule:2" held ≡ get "schedule:2" held)
    × (start.current_snapshot ≡ start.current_snapshot)
apply_reconcile_plan-restores_example =
    apply_reconcile_plan-restores (raises_on "schedule:2") (some "r1") later plan start start
      "schedule:2" (raises_on-IsAdapter "schedule:2") held-Distinct restores refl

same_key : (m n : ℕ) → (schedule_key m == schedule_key n) ≡ (m == n)
same_key m n =
    ground (arith, eq_iff (schedule_key m) (schedule_key n), (schedule_kind names).injective m n)

apart_key : (m n : ℕ) → (schedule_key m == manual_key n) ≡ false
apart_key m n = ground (arith, eq_iff (schedule_key m) (manual_key n), schedule-ne-manual m n)

held_schedules :
    (id : ℕ)
    → get (schedule_key id) held ≡ wanted (schedule_kind names) id (schedules_of (some before))
unfolding get schedules_of put
held_schedules id = rw (same_key 1 id, same_key 2 id) (ground arith)

held_manuals :
    (id : ℕ)
    → get (manual_key id) held ≡ wanted (manual_kind names) id (managed_manuals_of (some before))
unfolding get managed_manuals_of
held_manuals id = rw (apart_key 1 id, apart_key 2 id) refl

no_collision :
    NoCollision (schedule_kind names) (schedules_of (some before)) (schedules_of (some later))
unfolding get schedules_of put schedule_spec
no_collision id a b at at' same = ground (arith, at, at', same)

no_manuals :
    NoCollision
      (manual_kind names)
      (managed_manuals_of (some before))
      (managed_manuals_of (some later))
unfolding get managed_manuals_of
no_manuals id a b at at' same = cc

apply_reconcile_plan-converges_example :
    (get (schedule_key 3) finish.scheduler
      ≡ wanted (schedule_kind names) 3 (schedules_of (some later)))
    × (get (manual_key 3) finish.scheduler
        ≡ wanted (manual_kind names) 3 (managed_manuals_of (some later)))
apply_reconcile_plan-converges_example =
    apply_reconcile_plan-converges (raises_on "") names (some before) later [] (some "r1") start
      finish (raises_on-IsAdapter "") no_collision no_manuals
      (λ id. (held_schedules id, held_manuals id)) applies 3
