-- ===== src/Agent/SyncCoordinator/Plans.antt =====
-- What a plan holds for the items of one kind: schedules, or managed manual runs.
use Prim.Native.Char.{code}
use Prim.Native.String.append
use time_weaver.Prelude.{
  ℕ, ◌≡◌, ◌≢◌, refl, sym, ap, ◌∙◌, Bool, true, false, Option, none, some, String, List, Dict, get,
  ◌==◌, text_comparable, nat_comparable, arith, str, str_injective, text_append,
}
use text.Mathlib.TextLemmas.{append_cancel_left}
use time_weaver.Agent.Models.{ScheduleGroup, ManualExecution}
use time_weaver.Agent.SyncCoordinator.{
  JobSpec, Fingerprints, schedule_spec, manual_spec, schedule_key, manual_key, specs_at,
}
use time_weaver.Agent.SyncCoordinator.Members.{Memᴰ, specs_at-only, Keyed, Keyed-get}

-- How the items of a kind become jobs.
pub record Kind (A : Type 0) : Type 0 where
  pub spec : A → JobSpec
  pub id : A → ℕ
  pub key : ℕ → String
  pub key_spec : (item : A) → (spec item).key ≡ key (id item)
  pub injective : (m n : ℕ) → key m ≡ key n → m ≡ n

pub schedule_spec-key :
    (f : Fingerprints) (g : ScheduleGroup) → (schedule_spec f g).key ≡ schedule_key g.schedule_id
unfolding schedule_spec
schedule_spec-key f g = refl

pub manual_spec-key :
    (f : Fingerprints) (m : ManualExecution) → (manual_spec f m).key ≡ manual_key m.manual_id
unfolding manual_spec
manual_spec-key f m = refl

abbrev pub schedule_kind : Fingerprints → Kind ScheduleGroup
schedule_kind f = record {
  spec = schedule_spec f;
  id = λ g. g.schedule_id;
  key = schedule_key;
  key_spec = schedule_spec-key f;
  injective = λ m n e. str_injective m n (append_cancel_left "schedule:" (str m) (str n) e);
}

abbrev pub manual_kind : Fingerprints → Kind ManualExecution
manual_kind f = record {
  spec = manual_spec f;
  id = λ m. m.manual_id;
  key = manual_key;
  key_spec = manual_spec-key f;
  injective = λ m n e. str_injective m n (append_cancel_left "manual:" (str m) (str n) e);
}

starts_with_s : String → Bool
starts_with_s String.[] = false
starts_with_s (String.◌∷◌ c s) = code c == 115

pub not_true : true ≡ false → ⊥
not_true e = ground (arith, e)

starts_schedule : (x : String) → starts_with_s (text_append "schedule:" x) ≡ true
unfolding starts_with_s
starts_schedule x = rw append.cons refl

starts_manual : (x : String) → starts_with_s (text_append "manual:" x) ≡ false
unfolding starts_with_s
starts_manual x = rw append.cons refl

pub schedule-ne-manual : (m n : ℕ) → schedule_key m ≢ manual_key n
unfolding starts_with_s
schedule-ne-manual m n e =
    let bad : true ≡ false =
      sym (starts_schedule (str m)) ∙ ap starts_with_s e ∙ starts_manual (str n) in
    not_true bad

-- The job that a snapshot wants under the key of an id.
abbrev pub wanted : {A : Type 0} → Kind A → ℕ → Dict ℕ A → Option JobSpec
wanted k id d = elim (get id d) [ none ↦ none | some item ↦ some (k.spec item) ]

pub wanted-own :
    {A : Type 0} (k : Kind A) (id : ℕ) (ids : List ℕ) (d : Dict ℕ A) (x : JobSpec)
    → Keyed k.id d
    → Memᴰ x (specs_at k.spec ids d)
    → x.key ≡ k.key id
    → some x ≡ wanted k id d
wanted-own k id ids d x keyed m e =
    let (id', item, at, is) = specs_at-only k.spec x ids d m in
    let same : id' ≡ id = k.injective id' id (
      ap k.key (sym (Keyed-get k.id id' d item keyed at))
      ∙ sym (k.key_spec item)
      ∙ ap (λ y. y.key) (sym is)
      ∙ e) in
    let there : get id d ≡ some item = ap (λ i. get i d) (sym same) ∙ at in
    rw (there, wanted) (ap some is)

pub other_key :
    {B : Type 0} (k : Kind B) (ids : List ℕ) (d : Dict ℕ B) (x : JobSpec)
    → Memᴰ x (specs_at k.spec ids d)
    → (n : ℕ) × (x.key ≡ k.key n)
other_key k ids d x m =
    let (id', item, at, is) = specs_at-only k.spec x ids d m in
    (k.id item, ap (λ y. y.key) is ∙ k.key_spec item)
