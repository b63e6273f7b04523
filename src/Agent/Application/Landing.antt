-- ===== src/Agent/Application/Landing.antt =====
-- A manual run that is not in flight: what the failures of its dispatch leave of it.
use time_weaver.Prelude.{
  ℕ, ◌≡◌, inl, inr, Bool, false, ◌||◌, Option, none, some, String, List, [], ◌∷◌, get, ◌==◌,
  discard, contains-discard, starts_with, nat_comparable, text_comparable, arith, Bool-cases,
}
use time_weaver.Agent.ApSchedulerAdapter.{
  ApSchedulerAdapter, Scheduler, ap_adapter, remove_job, unschedule, unmark, forget_manual,
  manual_id, drop_spec, with_scheduler, is_inflight, dispatch_key, kind_is,
}
use time_weaver.Agent.ApiErrors.{ApiClientError}
use time_weaver.Agent.Application.{Application}
use time_weaver.Agent.Application.Handlers.{
  handle_operating_transition, announced, becomes_halted, halt, passes,
}
use time_weaver.Agent.Application.Manual.{hear, hear_one, recorded, failure_of, record_api_failure}
use time_weaver.Agent.Application.Slots.{Counts, counts}
use time_weaver.Agent.OperatingState.{OperatingState, OperatingStateManager, StateTransition}
use time_weaver.Agent.SyncCoordinator.Apply.{
  Outcome, returned, raised, then_do, after, try_remove_each, remove_all_managed, sorted_keys,
  managed_jobs,
}

-- Both marks of a manual run that is not under way.
abbrev pub Loose : {T : Type 0} → ℕ → Counts → Application T → Type 0
Loose id c a = (counts a.outbox ≡ c) × (is_inflight id a.adapter ≡ false)

-- Removing jobs puts no manual run in flight.
abbrev Landed : {T : Type 0} → ℕ → Outcome (ApSchedulerAdapter T) → Type 0
Landed id r = is_inflight id (after r) ≡ false

then_do-Landed :
    {T : Type 0} (id : ℕ) (r : Outcome (ApSchedulerAdapter T))
    (next : ApSchedulerAdapter T → Outcome (ApSchedulerAdapter T))
    → Landed id r
    → ((s : ApSchedulerAdapter T) → is_inflight id s ≡ false → Landed id (next s))
    → Landed id (then_do r next)
then_do-Landed id (returned s) next h keeps = keeps s h
then_do-Landed id (raised s) next h keeps = h

with_scheduler-Landed :
    {T : Type 0} (id : ℕ) (s : ApSchedulerAdapter T) (r : Outcome T)
    → is_inflight id s ≡ false
    → Landed id (with_scheduler s r)
with_scheduler-Landed id s (returned t) h = h
with_scheduler-Landed id s (raised t) h = h

module _ {T : Type 0} (sch : Scheduler T) (number_in : String → Option ℕ) (id : ℕ) where
  forget_manual-Landed :
      (other : Option ℕ) (s : ApSchedulerAdapter T)
      → is_inflight id s ≡ false
      → Landed id (forget_manual sch other s)
  forget_manual-Landed none s h = h
  forget_manual-Landed (some other) s h =
      then_do-Landed id (with_scheduler s (sch.remove_job (dispatch_key other) s.scheduler))
        (λ s'. returned (record s' { manual_inflight = discard other s'.manual_inflight }))
        (with_scheduler-Landed id s (sch.remove_job (dispatch_key other) s.scheduler) h)
        (λ s' h'. ground (arith, h', contains-discard other id s'.manual_inflight))

  remove_job-Landed :
      (key : String) (s : ApSchedulerAdapter T)
      → is_inflight id s ≡ false
      → Landed id (remove_job sch number_in key s)
  unfolding remove_job
  remove_job-Landed key s h =
      let spec = get key s.specs in
      then_do-Landed id (then_do (unschedule sch key spec s) (unmark sch number_in key spec))
        (λ s'. returned (drop_spec key s'))
        (then_do-Landed id (unschedule sch key spec s) (unmark sch number_in key spec)
          (elim (Bool-cases (starts_with key "schedule:" || kind_is "schedule" spec)) [
            | inl does ↦ rw does (with_scheduler-Landed id s _ h)
            | inr not_so ↦ rw not_so h
          ])
          (λ s' h'. elim (Bool-cases (starts_with key "manual:" || kind_is "manual" spec)) [
            | inl does ↦ rw does (forget_manual-Landed (manual_id number_in key spec) s' h')
            | inr not_so ↦ rw not_so h'
          ]))
        (λ s' h'. h')

  try_remove_each-inflight :
      (keys : List String) (s : ApSchedulerAdapter T)
      → is_inflight id s ≡ false
      → is_inflight id (try_remove_each (ap_adapter sch number_in) keys s) ≡ false
  unfolding try_remove_each
  try_remove_each-inflight [] s h = h
  try_remove_each-inflight (key ∷ keys) s h =
      try_remove_each-inflight keys _ (remove_job-Landed key s h)

  announced-Loose :
      (c : Counts) (fails : Bool) (tr : StateTransition) (a : Application T)
      → Loose id c a
      → Loose id c (announced fails tr a)
  announced-Loose c fails tr a h =
      elim (Bool-cases (passes tr OperatingState.healthy OperatingState.degraded)) [
        | inl falls ↦ rw falls h
        | inr other ↦
            rw other (elim (Bool-cases (passes tr OperatingState.degraded OperatingState.healthy)) [
              | inl rises ↦ rw rises h
              | inr neither ↦ rw neither h
            ])
      ]

  transition-Loose :
      (c : Counts) (fails : Bool) (tr : StateTransition) (a : Application T)
      → Loose id c a
      → Loose id c (handle_operating_transition sch number_in fails tr a)
  unfolding handle_operating_transition remove_all_managed
  transition-Loose c fails tr a h = elim (Bool-cases (becomes_halted tr)) [
    | inl halts ↦ rw halts (
        announced-Loose c fails tr (halt sch number_in a) (
          h.0,
          try_remove_each-inflight (sorted_keys (managed_jobs a.adapter.specs)) a.adapter h.1,
        ))
    | inr goes_on ↦ rw goes_on (announced-Loose c fails tr a h)
  ]

  hear_one-Loose :
      (c : Counts) (fails : Bool) (listener : ℕ) (change : StateTransition) (a : Application T)
      → Loose id c a
      → Loose id c (hear_one sch number_in fails (listener, change) a)
  hear_one-Loose c fails listener change a h = elim (Bool-cases (listener == 0)) [
    | inl own ↦ rw own (transition-Loose c fails change a h)
    | inr other ↦ rw other h
  ]

  hear-Loose :
      (c : Counts) (fails : Bool) (calls : List (ℕ × StateTransition)) (a : Application T)
      → Loose id c a
      → Loose id c (hear sch number_in fails calls a)
  unfolding hear
  hear-Loose c fails [] a h = h
  hear-Loose c fails ((listener, change) ∷ calls) a h =
      hear-Loose c fails calls (hear_one sch number_in fails (listener, change) a)
        (hear_one-Loose c fails listener change a h)

  recorded-Loose :
      (c : Counts) (fails : Bool) (exc : ApiClientError) (m : Option OperatingStateManager)
      (a : Application T)
      → Loose id c a
      → Loose id c (recorded sch number_in fails exc m a)
  recorded-Loose c fails exc none a h = h
  recorded-Loose c fails exc (some m) a h = hear-Loose c fails (failure_of exc m).notified _ h

  pub record_api_failure-Loose :
      (c : Counts) (fails : Bool) (exc : ApiClientError) (a : Application T)
      → Loose id c a
      → Loose id c (record_api_failure sch number_in fails exc a)
  unfolding record_api_failure
  record_api_failure-Loose c fails exc a h = recorded-Loose c fails exc a.outbox.state_manager a h
