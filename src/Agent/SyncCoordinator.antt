-- ===== src/Agent/SyncCoordinator.antt =====
-- build_reconcile_plan of agent/services/time_weaver/sync_coordinator.py, over the snapshots of
-- models.py. The SHA-256 fingerprints of schedules and manual runs are parameters.
pub mod Apply
pub mod Members
pub mod Plans
pub mod Parts
pub mod Mutations
pub mod Converges
pub mod Compensation
mod Examples
use time_weaver.Prelude.{
  ℕ, Bool, true, false, not, ◌&&◌, ◌||◌, Option, none, some, String, List, [], ◌∷◌, ◌++◌, map, Dict,
  get, put, ◌==◌, if◌then◌else◌, leb, is_none, text_comparable, nat_comparable, str, text_append,
  sort_by, text_le, contains,
}
use time_weaver.Agent.Models.{ScheduleGroup, ManualExecution, ScheduleSnapshot}

pub data JobValue : Type 0 where
  of_schedule : ScheduleGroup → JobValue
  of_manual : ManualExecution → JobValue

pub record JobSpec : Type 0 where
  pub key : String
  pub kind : String
  pub fingerprint : String
  pub value : JobValue

-- _schedule_fingerprint and _manual_fingerprint
pub record Fingerprints : Type 0 where
  pub of_schedule : ScheduleGroup → String
  pub of_manual : ManualExecution → String

pub record RunningContext : Type 0 where
  pub context_id : String
  pub kind : String
  pub schedule_id : Option ℕ

pub record ReconcilePlan : Type 0 where
  pub old_revision : Option String
  pub new_revision : String
  pub removals : List String
  pub updates : List JobSpec
  pub additions : List JobSpec
  pub stop_after_current_sequence : List String

abbrev pub schedule_key : ℕ → String
schedule_key id = text_append "schedule:" (str id)

abbrev pub manual_key : ℕ → String
manual_key id = text_append "manual:" (str id)

-- _schedule_spec
unfoldable pub schedule_spec : Fingerprints → ScheduleGroup → JobSpec
schedule_spec f g = record {
  key = schedule_key g.schedule_id;
  kind = "schedule";
  fingerprint = f.of_schedule g;
  value = of_schedule g;
}

-- _manual_spec
unfoldable pub manual_spec : Fingerprints → ManualExecution → JobSpec
manual_spec f m = record {
  key = manual_key m.manual_id;
  kind = "manual";
  fingerprint = f.of_manual m;
  value = of_manual m;
}

abbrev over_statuses : List String
over_statuses = "done" ∷ "failed" ∷ "cancelled" ∷ "claimed" ∷ []

-- _manual_managed
unfoldable pub manual_managed : ManualExecution → Bool
manual_managed m = m.claimable && not (contains m.status over_statuses)

-- {item.id: item for item in items}
unfoldable pub index {ℓ} : {A : Type ℓ} → (A → ℕ) → List A → Dict ℕ A → Dict ℕ A
index id [] d = d
index id (item ∷ items) d = index id items (put (id item) item d)

-- {key: item for key, item in d.items() if test(item)}
unfoldable pub items_where {ℓ} : {A : Type ℓ} → (A → Bool) → Dict ℕ A → Dict ℕ A
items_where test [] = []
items_where test ((id, item) ∷ d) =
    let rest = items_where test d in if test item then (id, item) ∷ rest else rest

unfoldable pub schedules_of : Option ScheduleSnapshot → Dict ℕ ScheduleGroup
unfolding index
schedules_of none = []
schedules_of (some s) = index (λ g. g.schedule_id) s.schedules []

unfoldable pub managed_manuals_of : Option ScheduleSnapshot → Dict ℕ ManualExecution
unfolding index items_where manual_managed
managed_manuals_of none = []
managed_manuals_of (some s) = items_where manual_managed (index (λ m. m.manual_id) s.manual_runs [])

-- The ids of a dict that a test takes.
unfoldable pub ids_where {ℓ} : {A : Type ℓ} → (ℕ → Bool) → Dict ℕ A → List ℕ
ids_where test [] = []
ids_where test ((id, item) ∷ d) = let rest = ids_where test d in if test id then id ∷ rest else rest

-- sorted(a.keys() - b.keys())
unfoldable pub only_in {ℓ} : {A : Type ℓ} → Dict ℕ A → Dict ℕ A → List ℕ
unfolding ids_where
only_in a b = sort_by leb (ids_where (λ id. is_none (get id b)) a)

-- [spec(d[id]) for id in ids]
unfoldable pub specs_at {ℓ} : {A : Type ℓ} → (A → JobSpec) → List ℕ → Dict ℕ A → List JobSpec
specs_at spec [] d = []
specs_at spec (id ∷ ids) d =
    let rest = specs_at spec ids d in elim (get id d) [ none ↦ rest | some item ↦ spec item ∷ rest ]

abbrev pub prints_differ {ℓ} : {A : Type ℓ} → (A → JobSpec) → Option A → Option A → Bool
prints_differ spec (some a) (some b) = not ((spec a).fingerprint == (spec b).fingerprint)
prints_differ spec _ _ = false

-- The ids in both dicts whose fingerprints differ, in order.
unfoldable pub changed_ids {ℓ} : {A : Type ℓ} → (A → JobSpec) → Dict ℕ A → Dict ℕ A → List ℕ
unfolding ids_where
changed_ids spec old new =
    sort_by leb (ids_where (λ id. prints_differ spec (get id old) (get id new)) old)

abbrev pub spec_le : JobSpec → JobSpec → Bool
spec_le a b = text_le a.key b.key

-- The ids of old schedules that are gone or changed.
abbrev changed_schedule : Fingerprints → Dict ℕ ScheduleGroup → Dict ℕ ScheduleGroup → ℕ → Bool
changed_schedule f old new id =
    not (is_none (get id old))
    && (is_none (get id new) || prints_differ (schedule_spec f) (get id old) (get id new))

abbrev is_marked : (ℕ → Bool) → RunningContext → Bool
is_marked changed context = elim context.schedule_id [
  | none ↦ false
  | some id ↦ (context.kind == "regular" || context.kind == "schedule") && changed id
]

unfoldable pub markers : (ℕ → Bool) → List RunningContext → List String
markers changed [] = []
markers changed (context ∷ contexts) =
    let rest = markers changed contexts in
    if is_marked changed context then context.context_id ∷ rest else rest

abbrev revision_of : Option ScheduleSnapshot → Option String
revision_of none = none
revision_of (some s) = some s.revision

-- build_reconcile_plan
unfoldable pub build_reconcile_plan :
    Fingerprints → Option ScheduleSnapshot → ScheduleSnapshot → List RunningContext → ReconcilePlan
unfolding only_in changed_ids specs_at markers schedule_spec manual_spec
build_reconcile_plan f old new contexts =
    let old_s = schedules_of old in
    let new_s = schedules_of (some new) in
    let old_m = managed_manuals_of old in
    let new_m = managed_manuals_of (some new) in
    record {
      old_revision = revision_of old;
      new_revision = new.revision;
      removals =
          sort_by text_le
            (map schedule_key (only_in old_s new_s) ++ map manual_key (only_in old_m new_m));
      updates = sort_by spec_le (
          specs_at (schedule_spec f) (changed_ids (schedule_spec f) old_s new_s) new_s
          ++ specs_at (manual_spec f) (changed_ids (manual_spec f) old_m new_m) new_m);
      additions = sort_by spec_le (
          specs_at (schedule_spec f) (only_in new_s old_s) new_s
          ++ specs_at (manual_spec f) (only_in new_m old_m) new_m);
      stop_after_current_sequence =
          sort_by text_le (markers (changed_schedule f old_s new_s) contexts);
    }
