-- ===== src/Agent/SyncCoordinator/Compensation.antt =====
-- A plan that fails leaves the managed jobs as they were, if their restoring returns.
use mathlib.Core.List.Memᴰ
use time_weaver.Prelude.{
  ◌≡◌, refl, sym, ap, ◌∙◌, true, Option, none, some, String, List, [], ◌∷◌, Dict, get, Distinct,
  ◌==◌, text_comparable, inl, inr, arith, Bool-cases, Option-cases, eq_iff, sort_by, text_le,
}
use time_weaver.Agent.Models.{ScheduleSnapshot}
use time_weaver.Agent.SyncCoordinator.{JobSpec, ReconcilePlan}
use time_weaver.Agent.SyncCoordinator.Apply.{
  Outcome, returned, raised, SchedulerAdapter, IsAdapter, SyncCoordinator, apply_error, remove_each,
  readd_each, mutate, apply_reconcile_plan, compensate, managed_jobs, is_managed, restore_jobs,
  sorted_keys, item_le,
}
use time_weaver.Agent.SyncCoordinator.Members.{Memᴰ, head, tail, sort_by-all, sort_by-only, map-all}
use time_weaver.Agent.SyncCoordinator.Mutations.{
  then_do-returned, job, remove_each-none, remove_each-Mem,
}

get-Mem : (j : String) (x : JobSpec) (d : Dict String JobSpec) → get j d ≡ some x → Memᴰ (j, x) d
unfolding get
get-Mem j x [] at = cc
get-Mem j x ((k, y) ∷ d) at = elim (Bool-cases (k == j)) [
  | inl same ↦
      let e : j ≡ k = sym (ground (arith, same, eq_iff k j)) in
      let e' : x ≡ y = ground (arith, at, same) in head (cc (e, e'))
  | inr differ ↦ tail (get-Mem j x d (ground (arith, at, differ)))
]

Mem-get :
    (j : String) (x : JobSpec) (d : Dict String JobSpec)
    → Distinct d
    → Memᴰ (j, x) d
    → get j d ≡ some x
unfolding get
Mem-get j x [] distinct m = absurd (Memᴰ.not-nil m)
Mem-get j x ((k, y) ∷ d) distinct m = elim (Memᴰ.cases_cons m) [
  | inl e ↦
      let e1 : j ≡ k = ap (λ p. p.0) e in
      let e2 : x ≡ y = ap (λ p. p.1) e in ground (arith, e1, e2, eq_iff k j)
  | inr below ↦
      let there = Mem-get j x d distinct.1 below in
      elim (Bool-cases (k == j)) [
        | inr differ ↦ ground (arith, differ, there)
        | inl same ↦
            let e : k ≡ j = ground (arith, same, eq_iff k j) in
            let absent : get j d ≡ none = ap (λ i. get i d) (sym e) ∙ distinct.0 in
            ground (arith, absent, there)
      ]
]

managed-Mem :
    (j : String) (x : JobSpec) (d : Dict String JobSpec)
    → is_managed j ≡ true
    → Memᴰ (j, x) d
    → Memᴰ (j, x) (managed_jobs d)
unfolding managed_jobs
managed-Mem j x [] is m = absurd (Memᴰ.not-nil m)
managed-Mem j x ((k, y) ∷ d) is m = elim (Memᴰ.cases_cons m) [
  | inl e ↦
      let here : is_managed k ≡ true = ap is_managed (ap (λ p. p.0) (sym e)) ∙ is in
      rw here (head e)
  | inr below ↦
      let there = managed-Mem j x d is below in
      elim (Bool-cases (is_managed k)) [ inl yes_ ↦ rw yes_ (tail there) | inr no_ ↦ rw no_ there ]
]

Mem-managed :
    (j : String) (x : JobSpec) (d : Dict String JobSpec)
    → Memᴰ (j, x) (managed_jobs d)
    → Memᴰ (j, x) d
unfolding managed_jobs
Mem-managed j x [] = λ m. m
Mem-managed j x ((k, y) ∷ d) = elim (Bool-cases (is_managed k)) [
  | inl yes_ ↦ rw yes_ (λ m. elim (Memᴰ.cases_cons m) [
    | inl e ↦ head e
    | inr below ↦ tail (Mem-managed j x d below)
  ])
  | inr no_ ↦ rw no_ (λ m. tail (Mem-managed j x d m))
]

module _ {S : Type 0} (a : SchedulerAdapter S) (laws : IsAdapter a) (j : String)
    (v : Option JobSpec) where
  abbrev AllSame : List (String × JobSpec) → Type 0
  AllSame items = (x : JobSpec) → Memᴰ (j, x) items → some x ≡ v

  readd_each-stays :
      (items : List (String × JobSpec)) (s s' : S)
      → readd_each a items s ≡ returned s'
      → AllSame items
      → job a laws j s ≡ v
      → job a laws j s' ≡ v
  unfolding readd_each
  readd_each-stays [] s s' h same was = ground (arith, h, was)
  readd_each-stays ((k, x) ∷ items) s s' h same was =
      let (s1, first, rest) = then_do-returned (a.add_job k x s) (readd_each a items) s' h in
      readd_each-stays items s1 s' rest (λ y m. same y (tail m))
        (elim (Bool-cases (k == j)) [
          | inr differ ↦ laws.added k j x s s1 first ∙ rw differ was
          | inl is ↦
              let e : j ≡ k = sym (ground (arith, is, eq_iff k j)) in
              laws.added k j x s s1 first ∙ rw is (same x (head (ap (λ i. (i, x)) e)))
        ])

  readd_each-Mem :
      (items : List (String × JobSpec)) (x : JobSpec) (s s' : S)
      → readd_each a items s ≡ returned s'
      → AllSame items
      → Memᴰ (j, x) items
      → job a laws j s' ≡ v
  unfolding readd_each
  readd_each-Mem [] x s s' h same m = absurd (Memᴰ.not-nil m)
  readd_each-Mem ((k, y) ∷ items) x s s' h same m =
      let (s1, first, rest) = then_do-returned (a.add_job k y s) (readd_each a items) s' h in
      elim (Memᴰ.cases_cons m) [
        | inr below ↦ readd_each-Mem items x s1 s' rest (λ z n. same z (tail n)) below
        | inl e ↦
            let e1 : j ≡ k = ap (λ p. p.0) e in
            let is : (k == j) ≡ true = ground (arith, e1, eq_iff k j) in
            readd_each-stays items s1 s' rest (λ z n. same z (tail n))
              (laws.added k j y s s1 first ∙ rw is (same y (head (ap (λ i. (i, y)) e1))))
      ]

module _ {S : Type 0} (a : SchedulerAdapter S) (laws : IsAdapter a) where
  -- Once the managed jobs are removed, no key of theirs has a job.
  all_removed :
      (j : String) (s s' : S)
      → is_managed j ≡ true
      → remove_each a (sorted_keys (managed_jobs (a.list_jobs s))) s ≡ returned s'
      → job a laws j s' ≡ none
  all_removed j s s' is h = elim (Option-cases (get j (a.list_jobs s))) [
    | inl never ↦ remove_each-none a laws j _ s s' h never
    | inr (x, at) ↦ remove_each-Mem a laws j _ s s' h (
        sort_by-all text_le j _ (
          map-all (λ item. item.0) (j, x) _
            (managed-Mem j x (a.list_jobs s) is (get-Mem j x (a.list_jobs s) at))))
  ]

  restored :
      (j : String) (jobs : Dict String JobSpec) (s s' : S)
      → Distinct jobs
      → is_managed j ≡ true
      → restore_jobs a (managed_jobs jobs) s ≡ returned s'
      → job a laws j s' ≡ get j jobs
  unfolding restore_jobs
  restored j jobs s s' distinct is h =
      let (s1, first, rest) =
        then_do-returned (remove_each a (sorted_keys (managed_jobs (a.list_jobs s))) s) _ s' h in
      let items = sort_by item_le (managed_jobs jobs) in
      let same : (x : JobSpec) → Memᴰ (j, x) items → some x ≡ get j jobs = λ x m.
        sym (Mem-get j x jobs distinct (Mem-managed j x jobs (sort_by-only item_le (j, x) _ m))) in
      elim (Option-cases (get j jobs)) [
        | inl never ↦
            readd_each-stays a laws j (get j jobs) items s1 s' rest same
              (all_removed j s s1 is first ∙ sym never)
        | inr (x, at) ↦
            readd_each-Mem a laws j (get j jobs) items x s1 s' rest same
              (sort_by-all item_le (j, x) _ (managed-Mem j x jobs is (get-Mem j x jobs at)))
      ]

-- What an apply error means: a mutation raised, and the restoring returned.
failed_then_restored :
    {S : Type 0} (a : SchedulerAdapter S) (expected : Option String) (new : ScheduleSnapshot)
    (plan : ReconcilePlan) (c c' : SyncCoordinator S)
    → apply_reconcile_plan a expected new plan c ≡ (c', apply_error)
    → (s : S) × (restore_jobs a (managed_jobs (a.list_jobs c.scheduler)) s ≡ returned c'.scheduler)
      × (c'.current_snapshot ≡ c.current_snapshot)
unfolding apply_reconcile_plan compensate
failed_then_restored a expected new plan c c' h = elim_mutate (mutate a plan c.scheduler) refl
  where
    elim_mutate :
        (o : Outcome _)
        → mutate a plan c.scheduler ≡ o
        → (s : _) × (restore_jobs a (managed_jobs (a.list_jobs c.scheduler)) s
            ≡ returned c'.scheduler)
          × (c'.current_snapshot ≡ c.current_snapshot)
    elim_mutate (returned s) e = absurd (ground (arith, h, e))
    elim_mutate (raised s) e = (s, ground (arith, h, e), ground (arith, h, e))

-- If a mutation of a plan raises and the restoring of the previous jobs returns, then every managed
-- job is what it was before the plan, whatever the failed mutations did, and so is the snapshot.
pub apply_reconcile_plan-restores :
    {S : Type 0} (a : SchedulerAdapter S) (expected : Option String) (new : ScheduleSnapshot)
    (plan : ReconcilePlan) (c c' : SyncCoordinator S) (j : String)
    → IsAdapter a
    → Distinct (a.list_jobs c.scheduler)
    → apply_reconcile_plan a expected new plan c ≡ (c', apply_error)
    → is_managed j ≡ true
    → (get j (a.list_jobs c'.scheduler) ≡ get j (a.list_jobs c.scheduler))
      × (c'.current_snapshot ≡ c.current_snapshot)
apply_reconcile_plan-restores a expected new plan c c' j laws distinct h is =
    let (s, back, kept) = failed_then_restored a expected new plan c c' h in
    (restored a laws j (a.list_jobs c.scheduler) s c'.scheduler distinct is back, kept)
