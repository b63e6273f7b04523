-- ===== src/Agent/SyncCoordinator/Parts.antt =====
-- The part of build_reconcile_plan that is about one kind of items.
use mathlib.Core.List.Memᴰ
use time_weaver.Prelude.{
  ℕ, ◌≡◌, ◌≢◌, refl, sym, ap, ◌∙◌, true, false, Option, none, some, String, List, [], ◌++◌, map,
  Dict, get, ◌==◌, text_comparable, nat_comparable, inl, inr, ◌⊎◌, arith, Bool-cases, eq_iff,
  is_none, sort_by, leb, text_le,
}
use time_weaver.Agent.Models.{ScheduleSnapshot}
use time_weaver.Agent.SyncCoordinator.{
  JobSpec, Fingerprints, ReconcilePlan, RunningContext, schedule_key, manual_key, schedules_of,
  managed_manuals_of, only_in, changed_ids, prints_differ, specs_at, build_reconcile_plan, spec_le,
  manual_managed,
}
use time_weaver.Agent.SyncCoordinator.Members.{
  Memᴰ, sort_by-all, sort_by-only, map-all, map-only, ids_where-only, ids_where-all, specs_at-all,
  Keyed, Keyed-index, Keyed-items_where,
}
use time_weaver.Agent.SyncCoordinator.Plans.{
  Kind, schedule_kind, manual_kind, schedule-ne-manual, wanted, wanted-own, other_key, not_true,
}

-- What the plan holds about the items of the kind.
pub record Part {A : Type 0} (k : Kind A) (old new : Dict ℕ A) (plan : ReconcilePlan) : Type 0 where
  pub gone :
      (id : ℕ) (a : A) → get id old ≡ some a → get id new ≡ none → Memᴰ (k.key id) plan.removals
  pub stays :
      (id : ℕ) (b : A) (r : String)
      → get id new ≡ some b
      → Memᴰ r plan.removals
      → (r == k.key id) ≡ false
  pub changed :
      (id : ℕ) (a b : A)
      → get id old ≡ some a
      → get id new ≡ some b
      → ((k.spec a).fingerprint == (k.spec b).fingerprint) ≡ false
      → Memᴰ (k.spec b) plan.updates
  pub fresh :
      (id : ℕ) (b : A) → get id old ≡ none → get id new ≡ some b → Memᴰ (k.spec b) plan.additions
  pub updates_wanted :
      (id : ℕ) (x : JobSpec) → Memᴰ x plan.updates → x.key ≡ k.key id → some x ≡ wanted k id new
  pub additions_wanted :
      (id : ℕ) (x : JobSpec) → Memᴰ x plan.additions → x.key ≡ k.key id → some x ≡ wanted k id new
  pub keyed : Keyed k.id new

only_in-all :
    {A : Type 0} (id : ℕ) (a : A) (d e : Dict ℕ A)
    → get id d ≡ some a
    → get id e ≡ none
    → Memᴰ id (only_in d e)
unfolding only_in
only_in-all id a d e at absent =
    sort_by-all leb id _ (ids_where-all (λ i. is_none (get i e)) id d a at (rw absent refl))

only_in-only :
    {A : Type 0} (id : ℕ) (d e : Dict ℕ A) → Memᴰ id (only_in d e) → is_none (get id e) ≡ true
unfolding only_in
only_in-only id d e m = ids_where-only (λ i. is_none (get i e)) id d (sort_by-only leb id _ m)

changed_ids-all :
    {A : Type 0} (k : Kind A) (id : ℕ) (a b : A) (old new : Dict ℕ A)
    → get id old ≡ some a
    → get id new ≡ some b
    → ((k.spec a).fingerprint == (k.spec b).fingerprint) ≡ false
    → Memᴰ id (changed_ids k.spec old new)
unfolding changed_ids
changed_ids-all k id a b old new at at' differ = sort_by-all leb id _ (
    ids_where-all (λ i. prints_differ k.spec (get i old) (get i new)) id old a at
      (rw (at, at', differ) refl))

-- Two lists of specs, of which only the first is of the kind, or only the second.
own_left :
    {A B : Type 0} (k : Kind A) (l : Kind B) (id : ℕ) (ids ids' : List ℕ) (d : Dict ℕ A)
    (d' : Dict ℕ B) (x : JobSpec)
    → ((m n : ℕ) → k.key m ≢ l.key n)
    → Keyed k.id d
    → Memᴰ x (sort_by spec_le (specs_at k.spec ids d ++ specs_at l.spec ids' d'))
    → x.key ≡ k.key id
    → some x ≡ wanted k id d
own_left k l id ids ids' d d' x apart keyed m e =
    elim (Memᴰ.append_cases (specs_at k.spec ids d) (sort_by-only spec_le x _ m)) [
      | inl mine ↦ wanted-own k id ids d x keyed mine e
      | inr theirs ↦ let (n, e') = other_key l ids' d' x theirs in absurd (apart id n (sym e ∙ e'))
    ]

own_right :
    {A B : Type 0} (k : Kind A) (l : Kind B) (id : ℕ) (ids ids' : List ℕ) (d : Dict ℕ A)
    (d' : Dict ℕ B) (x : JobSpec)
    → ((m n : ℕ) → l.key m ≢ k.key n)
    → Keyed k.id d
    → Memᴰ x (sort_by spec_le (specs_at l.spec ids' d' ++ specs_at k.spec ids d))
    → x.key ≡ k.key id
    → some x ≡ wanted k id d
own_right k l id ids ids' d d' x apart keyed m e =
    elim (Memᴰ.append_cases (specs_at l.spec ids' d') (sort_by-only spec_le x _ m)) [
      | inr mine ↦ wanted-own k id ids d x keyed mine e
      | inl theirs ↦ let (n, e') = other_key l ids' d' x theirs in absurd (apart n id (sym e' ∙ e))
    ]

-- A removal is the key of an item that is gone, so not of one that stays.
removal_apart :
    {A B : Type 0} (k : Kind A) (l : Kind B) (id : ℕ) (b : A) (old new : Dict ℕ A)
    (old' new' : Dict ℕ B) (r : String)
    → ((m n : ℕ) → k.key m ≢ l.key n)
    → get id new ≡ some b
    → Memᴰ r (map k.key (only_in old new)) ⊎ Memᴰ r (map l.key (only_in old' new'))
    → (r == k.key id) ≡ false
removal_apart k l id b old new old' new' r apart at (inl m) =
    let (id', m', e) = map-only k.key r (only_in old new) m in
    elim (Bool-cases (r == k.key id)) [
      | inr isnt ↦ isnt
      | inl is ↦
          let same : id' ≡ id =
            k.injective id' id (sym e ∙ ground (arith, is, eq_iff r (k.key id))) in
          let absent : is_none (get id new) ≡ true =
            ap (λ i. is_none (get i new)) (sym same) ∙ only_in-only id' old new m' in
          absurd (not_true (sym absent ∙ rw at refl))
    ]
removal_apart k l id b old new old' new' r apart at (inr m) =
    let (n, m', e) = map-only l.key r (only_in old' new') m in
    elim (Bool-cases (r == k.key id)) [
      | inr isnt ↦ isnt
      | inl is ↦ absurd (apart id n (sym (ground (arith, is, eq_iff r (k.key id))) ∙ e))
    ]

swap : {X Y : Type 0} → X ⊎ Y → Y ⊎ X
swap (inl x) = inr x
swap (inr y) = inl y

schedules_of-Keyed : (s : ScheduleSnapshot) → Keyed (λ g. g.schedule_id) (schedules_of (some s))
unfolding schedules_of
schedules_of-Keyed s = Keyed-index (λ g. g.schedule_id) s.schedules [] tt

managed_manuals_of-Keyed :
    (s : ScheduleSnapshot) → Keyed (λ m. m.manual_id) (managed_manuals_of (some s))
unfolding managed_manuals_of
managed_manuals_of-Keyed s =
    Keyed-items_where (λ m. m.manual_id) manual_managed _
      (Keyed-index (λ m. m.manual_id) s.manual_runs [] tt)

module _ (f : Fingerprints) (old : Option ScheduleSnapshot) (new : ScheduleSnapshot)
    (contexts : List RunningContext) where
  pub schedule-Part :
      Part
        (schedule_kind f)
        (schedules_of old)
        (schedules_of (some new))
        (build_reconcile_plan f old new contexts)
  unfolding build_reconcile_plan
  schedule-Part = record {
    gone = λ id a at absent.
        sort_by-all text_le _ _
          (Memᴰ.append_left _ (map-all schedule_key id _ (only_in-all id a _ _ at absent)));
    stays = λ id b r at m.
        removal_apart (schedule_kind f) (manual_kind f) id b _ _ _ _ r schedule-ne-manual at
          (Memᴰ.append_cases _ (sort_by-only text_le r _ m));
    changed = λ id a b at at' differ. sort_by-all spec_le _ _ (
        Memᴰ.append_left _ (
          specs_at-all _ id _ _ b (changed_ids-all (schedule_kind f) id a b _ _ at at' differ)
            at'));
    fresh = λ id b absent at.
        sort_by-all spec_le _ _
          (Memᴰ.append_left _ (specs_at-all _ id _ _ b (only_in-all id b _ _ at absent) at));
    updates_wanted = λ id x m e.
        own_left (schedule_kind f) (manual_kind f) id _ _ _ _ x schedule-ne-manual
          (schedules_of-Keyed new) m e;
    additions_wanted = λ id x m e.
        own_left (schedule_kind f) (manual_kind f) id _ _ _ _ x schedule-ne-manual
          (schedules_of-Keyed new) m e;
    keyed = schedules_of-Keyed new;
  }

  pub manual-Part :
      Part
        (manual_kind f)
        (managed_manuals_of old)
        (managed_manuals_of (some new))
        (build_reconcile_plan f old new contexts)
  unfolding build_reconcile_plan
  manual-Part = record {
    gone = λ id a at absent.
        sort_by-all text_le _ _
          (Memᴰ.append_right _ (map-all manual_key id _ (only_in-all id a _ _ at absent)));
    stays = λ id b r at m.
        removal_apart (manual_kind f) (schedule_kind f) id b _ _ _ _ r
          (λ i j e. schedule-ne-manual j i (sym e)) at
          (swap (Memᴰ.append_cases _ (sort_by-only text_le r _ m)));
    changed = λ id a b at at' differ. sort_by-all spec_le _ _ (
        Memᴰ.append_right _
          (specs_at-all _ id _ _ b (changed_ids-all (manual_kind f) id a b _ _ at at' differ) at'));
    fresh = λ id b absent at.
        sort_by-all spec_le _ _
          (Memᴰ.append_right _ (specs_at-all _ id _ _ b (only_in-all id b _ _ at absent) at));
    updates_wanted = λ id x m e.
        own_right (manual_kind f) (schedule_kind f) id _ _ _ _ x schedule-ne-manual
          (managed_manuals_of-Keyed new) m e;
    additions_wanted = λ id x m e.
        own_right (manual_kind f) (schedule_kind f) id _ _ _ _ x schedule-ne-manual
          (managed_manuals_of-Keyed new) m e;
    keyed = managed_manuals_of-Keyed new;
  }
