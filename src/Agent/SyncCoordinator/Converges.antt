-- ===== src/Agent/SyncCoordinator/Converges.antt =====
-- A plan that is applied brings the scheduler's jobs to those of the new snapshot.
use time_weaver.Prelude.{
  ℕ, ◌≡◌, refl, sym, ap, ◌∙◌, Option, none, some, String, List, Dict, get, ◌==◌, text_comparable,
  nat_comparable, inl, inr, arith, Bool-cases, Option-cases, eq_iff,
}
use time_weaver.Agent.Models.{ScheduleSnapshot}
use time_weaver.Agent.SyncCoordinator.{
  Fingerprints, ReconcilePlan, RunningContext, schedule_key, manual_key, schedules_of,
  managed_manuals_of, build_reconcile_plan,
}
use time_weaver.Agent.SyncCoordinator.Apply.{
  returned, SchedulerAdapter, IsAdapter, SyncCoordinator, applied, remove_each, update_each,
  add_each, mutate, apply_reconcile_plan, compensate,
}
use time_weaver.Agent.SyncCoordinator.Members.{Keyed-get}
use time_weaver.Agent.SyncCoordinator.Plans.{Kind, schedule_kind, manual_kind, wanted}
use time_weaver.Agent.SyncCoordinator.Parts.{Part, schedule-Part, manual-Part}
use time_weaver.Agent.SyncCoordinator.Mutations.{
  then_do-returned, job, remove_each-none, remove_each-Mem, remove_each-other, update_each-stays,
  update_each-Mem, add_each-stays, add_each-Mem,
}

-- Two versions of an item whose fingerprints are the same are the same.
abbrev pub NoCollision : {A : Type 0} → Kind A → Dict ℕ A → Dict ℕ A → Type 0
NoCollision {A} k old new =
    (id : ℕ) (a b : A)
    → get id old ≡ some a
    → get id new ≡ some b
    → (k.spec a).fingerprint ≡ (k.spec b).fingerprint
    → a ≡ b

wanted-some :
    {A : Type 0} (k : Kind A) (id : ℕ) (d : Dict ℕ A) (b : A)
    → get id d ≡ some b
    → wanted k id d ≡ some (k.spec b)
wanted-some k id d b at = rw (at, wanted) refl

wanted-none :
    {A : Type 0} (k : Kind A) (id : ℕ) (d : Dict ℕ A) → get id d ≡ none → wanted k id d ≡ none
wanted-none k id d absent = rw (absent, wanted) refl

module _ {S A : Type 0} (a : SchedulerAdapter S) (laws : IsAdapter a) (k : Kind A)
    (old new : Dict ℕ A) (plan : ReconcilePlan) (part : Part k old new plan) (id : ℕ) where
  spec_key : (b : A) → get id new ≡ some b → (k.spec b).key ≡ k.key id
  spec_key b at = k.key_spec b ∙ ap k.key (Keyed-get k.id id new b part.keyed at)

  added :
      (s s' : S)
      → add_each a plan.additions s ≡ returned s'
      → job a laws (k.key id) s ≡ wanted k id new
      → job a laws (k.key id) s' ≡ wanted k id new
  added s s' h =
      add_each-stays a laws (k.key id) (wanted k id new) plan.additions s s' h
        (part.additions_wanted id)

  -- The three loops of the plan, each of which returned.
  converge :
      (s0 s1 s2 s3 : S)
      → NoCollision k old new
      → remove_each a plan.removals s0 ≡ returned s1
      → update_each a plan.updates s1 ≡ returned s2
      → add_each a plan.additions s2 ≡ returned s3
      → job a laws (k.key id) s0 ≡ wanted k id old
      → job a laws (k.key id) s3 ≡ wanted k id new
  converge s0 s1 s2 s3 apart h1 h2 h3 was = elim (Option-cases (get id new)) [
    | inl absent ↦
        let none_new = wanted-none k id new absent in
        let cleared : job a laws (k.key id) s1 ≡ none = elim (Option-cases (get id old)) [
          | inl never ↦
              remove_each-none a laws (k.key id) plan.removals s0 s1 h1
                (was ∙ wanted-none k id old never)
          | inr (x, at) ↦
              remove_each-Mem a laws (k.key id) plan.removals s0 s1 h1 (part.gone id x at absent)
        ] in
        added s2 s3 h3 (
          update_each-stays a laws (k.key id) (wanted k id new) plan.updates s1 s2 h2
            (part.updates_wanted id) (cleared ∙ sym none_new))
    | inr (b, at) ↦ elim (Option-cases (get id old)) [
      | inl never ↦
          add_each-Mem a laws (k.key id) (wanted k id new) plan.additions (k.spec b) s2 s3 h3
            (part.additions_wanted id) (part.fresh id b never at) (spec_key b at)
      | inr (x, was_at) ↦ elim (Bool-cases ((k.spec x).fingerprint == (k.spec b).fingerprint)) [
        | inr differ ↦ added s2 s3 h3 (
            update_each-Mem a laws (k.key id) (wanted k id new) plan.updates (k.spec b) s1 s2 h2
              (part.updates_wanted id) (part.changed id x b was_at at differ) (spec_key b at))
        | inl same ↦
            let one : x ≡ b =
              apart id x b was_at at
                (ground (arith, same, eq_iff (k.spec x).fingerprint (k.spec b).fingerprint)) in
            let unchanged : wanted k id old ≡ wanted k id new =
              wanted-some k id old x was_at
              ∙ ap (λ y. some (k.spec y)) one
              ∙ sym (wanted-some k id new b at) in
            added s2 s3 h3 (
              update_each-stays a laws (k.key id) (wanted k id new) plan.updates s1 s2 h2
                (part.updates_wanted id)
                (remove_each-other a laws (k.key id) plan.removals s0 s1 h1
                    (λ r m. part.stays id b r at m)
                  ∙ was
                  ∙ unchanged))
      ]
    ]
  ]

  converge_mutate :
      (s s' : S)
      → NoCollision k old new
      → mutate a plan s ≡ returned s'
      → job a laws (k.key id) s ≡ wanted k id old
      → job a laws (k.key id) s' ≡ wanted k id new
  unfolding mutate
  converge_mutate s s' apart h was =
      let (s2, first, h3) = then_do-returned _ (add_each a plan.additions) s' h in
      let (s1, h1, h2) =
        then_do-returned (remove_each a plan.removals s) (update_each a plan.updates) s2 first in
      converge s s1 s2 s' apart h1 h2 h3 was

applied_mutate :
    {S : Type 0} (a : SchedulerAdapter S) (expected : Option String) (new : ScheduleSnapshot)
    (plan : ReconcilePlan) (c c' : SyncCoordinator S)
    → apply_reconcile_plan a expected new plan c ≡ (c', applied)
    → mutate a plan c.scheduler ≡ returned c'.scheduler
unfolding apply_reconcile_plan compensate
applied_mutate a expected new plan c c' h = ground (arith, h)

-- If the scheduler holds the jobs of the old snapshot and the plan from it to a new one is applied,
-- then the scheduler holds the jobs of the new one: for each id the job of its schedule and that of
-- its managed manual run, and no job where the snapshot has none. No two versions of an item may
-- have one fingerprint, and the adapter's calls keep their laws.
pub apply_reconcile_plan-converges :
    {S : Type 0} (a : SchedulerAdapter S) (f : Fingerprints) (old : Option ScheduleSnapshot)
    (new : ScheduleSnapshot) (contexts : List RunningContext) (expected : Option String)
    (c c' : SyncCoordinator S)
    → (laws : IsAdapter a)
    → NoCollision (schedule_kind f) (schedules_of old) (schedules_of (some new))
    → NoCollision (manual_kind f) (managed_manuals_of old) (managed_manuals_of (some new))
    → ((id : ℕ)
        → (get (schedule_key id) (a.list_jobs c.scheduler)
            ≡ wanted (schedule_kind f) id (schedules_of old))
          × (get (manual_key id) (a.list_jobs c.scheduler)
              ≡ wanted (manual_kind f) id (managed_manuals_of old)))
    → apply_reconcile_plan a expected new (build_reconcile_plan f old new contexts) c
      ≡ (c', applied)
    → (id : ℕ)
    → (get (schedule_key id) (a.list_jobs c'.scheduler)
        ≡ wanted (schedule_kind f) id (schedules_of (some new)))
      × (get (manual_key id) (a.list_jobs c'.scheduler)
          ≡ wanted (manual_kind f) id (managed_manuals_of (some new)))
apply_reconcile_plan-converges a f old new contexts expected c c' laws apart apart' was h id =
    let plan = build_reconcile_plan f old new contexts in
    let done = applied_mutate a expected new plan c c' h in
    (
      converge_mutate a laws (schedule_kind f) _ _ plan (schedule-Part f old new contexts) id
          c.scheduler c'.scheduler apart done (was id).0,
      converge_mutate a laws (manual_kind f) _ _ plan (manual-Part f old new contexts) id
          c.scheduler c'.scheduler apart' done (was id).1,
    )
