-- ===== src/Agent/ApSchedulerAdapter/Laws.antt =====
-- The APScheduler adapter keeps the laws that the coordinator goes by.
use time_weaver.Prelude.{
  ℕ, ◌≡◌, refl, ap, ◌∙◌, Bool, true, false, ◌||◌, Option, none, some, String, get, put, pop,
  get-put, get-pop, ◌==◌, if◌then◌else◌, text_comparable, nat_comparable, contains, arith,
  Bool-cases, inl, inr, starts_with,
}
use time_weaver.Agent.SyncCoordinator.{JobSpec, JobValue, of_schedule, of_manual}
use time_weaver.Agent.SyncCoordinator.Apply.{Outcome, returned, raised, IsAdapter, then_do}
use time_weaver.Agent.SyncCoordinator.Mutations.{then_do-returned}
use time_weaver.Agent.ApSchedulerAdapter.{
  Scheduler, ApSchedulerAdapter, add_job, remove_job, update_job, schedule_manual, ap_adapter,
  is_valid_job, with_scheduler, keep_spec, forget_manual, refresh_manual, dispatch_key, unschedule,
  unmark, drop_spec, kind_is, manual_id,
}

module _ {T : Type 0} (sch : Scheduler T) (number_in : String → Option ℕ) where
  with_scheduler-specs :
      (s s' : ApSchedulerAdapter T) (o : Outcome T)
      → with_scheduler s o ≡ returned s'
      → s'.specs ≡ s.specs
  with_scheduler-specs s s' (returned t) h = ground (arith, h)
  with_scheduler-specs s s' (raised t) h = cc

  schedule_manual-specs :
      (value : JobValue) (s s' : ApSchedulerAdapter T)
      → schedule_manual sch value s ≡ returned s'
      → s'.specs ≡ s.specs
  unfolding schedule_manual
  schedule_manual-specs (of_schedule g) s s' h = cc
  schedule_manual-specs (of_manual m) s s' h =
      elim (Bool-cases (
        contains m.manual_id s.manual_inflight
        || sch.has_job (dispatch_key m.manual_id) s.scheduler)) [
          | inl is ↦ ground (arith, h, is)
          | inr isnt ↦
              with_scheduler-specs s s' (sch.add_job (dispatch_key m.manual_id) s.scheduler)
                (ground (arith, h, isnt))
        ]

  forget_manual-specs :
      (id : Option ℕ) (s s' : ApSchedulerAdapter T)
      → forget_manual sch id s ≡ returned s'
      → s'.specs ≡ s.specs
  forget_manual-specs none s s' h = cc
  forget_manual-specs (some id) s s' h =
      let (s1, first, last) =
        then_do-returned (with_scheduler s (sch.remove_job (dispatch_key id) s.scheduler)) _ s' h in
      let same : s'.specs ≡ s1.specs = ground (arith, last) in
      same ∙ with_scheduler-specs s s1 _ first

  unschedule-specs :
      (key : String) (spec : Option JobSpec) (s s' : ApSchedulerAdapter T)
      → unschedule sch key spec s ≡ returned s'
      → s'.specs ≡ s.specs
  unschedule-specs key spec s s' h =
      elim (Bool-cases (starts_with key "schedule:" || kind_is "schedule" spec)) [
        | inl is ↦
            with_scheduler-specs s s' (sch.remove_job key s.scheduler) (ground (arith, h, is))
        | inr isnt ↦ ground (arith, h, isnt)
      ]

  unmark-specs :
      (key : String) (spec : Option JobSpec) (s s' : ApSchedulerAdapter T)
      → unmark sch number_in key spec s ≡ returned s'
      → s'.specs ≡ s.specs
  unmark-specs key spec s s' h =
      elim (Bool-cases (starts_with key "manual:" || kind_is "manual" spec)) [
        | inl is ↦ forget_manual-specs (manual_id number_in key spec) s s' (ground (arith, h, is))
        | inr isnt ↦ ground (arith, h, isnt)
      ]

  remove_job-specs :
      (key : String) (s s' : ApSchedulerAdapter T)
      → remove_job sch number_in key s ≡ returned s'
      → s'.specs ≡ pop key s.specs
  unfolding remove_job
  remove_job-specs key s s' h =
      let spec = get key s.specs in
      let (s2, first, last) =
        then_do-returned (then_do (unschedule sch key spec s) (unmark sch number_in key spec))
          (λ s2. returned (drop_spec key s2)) s' h in
      let (s1, unscheduled, unmarked) =
        then_do-returned (unschedule sch key spec s) (unmark sch number_in key spec) s2 first in
      let popped : s'.specs ≡ pop key s2.specs = ground (arith, last) in
      popped
      ∙ ap (pop key)
          (unmark-specs key spec s1 s2 unmarked ∙ unschedule-specs key spec s s1 unscheduled)

  start-specs :
      (b : Bool) (key : String) (spec : JobSpec) (j : String) (s s' : ApSchedulerAdapter T)
      → (if b
          then with_scheduler s (sch.add_job spec.key s.scheduler)
          else schedule_manual sch spec.value (keep_spec key spec s))
        ≡ returned s'
      → get j (put key spec s'.specs) ≡ (if key == j then some spec else get j s.specs)
  start-specs true key spec j s s' h =
      get-put key j spec s'.specs ∙ rw (with_scheduler-specs s s' _ h) refl
  start-specs false key spec j s s' h =
      let kept = schedule_manual-specs spec.value (keep_spec key spec s) s' h in
      get-put key j spec s'.specs ∙ rw kept (ground (arith, get-put key j spec s.specs))

  add_job-specs :
      (key j : String) (spec : JobSpec) (s s' : ApSchedulerAdapter T)
      → add_job sch key spec s ≡ returned s'
      → get j s'.specs ≡ (if key == j then some spec else get j s.specs)
  unfolding add_job
  add_job-specs key j spec s s' h = elim (Bool-cases (is_valid_job key spec)) [
    | inr invalid ↦ ground (arith, h, invalid)
    | inl valid ↦
        let (s1, first, last) = then_do-returned _ _ s' (rejoin h valid) in
        let kept : s'.specs ≡ put key spec s1.specs = ground (arith, last) in
        ap (get j) kept ∙ start-specs (spec.kind == "schedule") key spec j s s1 first
  ]
    where
      rejoin :
          add_job sch key spec s ≡ returned s'
          → is_valid_job key spec ≡ true
          → then_do
              (if spec.kind == "schedule"
                then with_scheduler s (sch.add_job spec.key s.scheduler)
                else schedule_manual sch spec.value (keep_spec key spec s))
              (λ s1. returned (keep_spec key spec s1))
            ≡ returned s'
      rejoin e v = ground (arith, e, v)

  refresh-specs :
      (key j : String) (spec : JobSpec) (value : JobValue) (s s' : ApSchedulerAdapter T)
      → refresh_manual sch key spec value s ≡ returned s'
      → get j s'.specs ≡ (if key == j then some spec else get j s.specs)
  refresh-specs key j spec (of_schedule g) s s' h = cc
  refresh-specs key j spec (of_manual m) s s' h =
      let (s1, first, last) =
        then_do-returned (with_scheduler s (sch.remove_job (dispatch_key m.manual_id) s.scheduler))
          _ s' h in
      let kept = schedule_manual-specs spec.value (keep_spec key spec s1) s' last in
      ap (get j) kept ∙ get-put key j spec s1.specs ∙ rw (with_scheduler-specs s s1 _ first) refl

  replace-specs :
      (key j : String) (spec : JobSpec) (s s' : ApSchedulerAdapter T)
      → then_do (remove_job sch number_in key s) (add_job sch key spec) ≡ returned s'
      → get j s'.specs ≡ (if key == j then some spec else get j s.specs)
  replace-specs key j spec s s' h =
      let (s1, first, last) = then_do-returned (remove_job sch number_in key s) _ s' h in
      add_job-specs key j spec s1 s' last
      ∙ rw (remove_job-specs key s s1 first) (ground (arith, get-pop key j s.specs))

  update_job-specs :
      (key j : String) (spec : JobSpec) (s s' : ApSchedulerAdapter T)
      → update_job sch number_in key spec s ≡ returned s'
      → get j s'.specs ≡ (if key == j then some spec else get j s.specs)
  unfolding update_job
  update_job-specs key j spec s s' h = elim (Bool-cases (is_valid_job key spec)) [
    | inr invalid ↦ ground (arith, h, invalid)
    | inl valid ↦ elim (Bool-cases (spec.kind == "manual")) [
      | inl manual ↦ refresh-specs key j spec spec.value s s' (ground (arith, h, valid, manual))
      | inr other ↦ replace-specs key j spec s s' (ground (arith, h, valid, other))
    ]
  ]

-- Whatever APScheduler does, each call of the adapter that returns keeps the laws of the interface:
-- an added or updated job is listed under its key, a removed one is not, and no other job changes.
pub ap_adapter-IsAdapter :
    {T : Type 0} (sch : Scheduler T) (number_in : String → Option ℕ)
    → IsAdapter (ap_adapter sch number_in)
ap_adapter-IsAdapter sch number_in = record {
  added = λ k j spec s s' h. add_job-specs sch number_in k j spec s s' h;
  updated = λ k j spec s s' h. update_job-specs sch number_in k j spec s s' h;
  removed =
      λ k j s s' h. ap (get j) (remove_job-specs sch number_in k s s' h) ∙ get-pop k j s.specs;
}
