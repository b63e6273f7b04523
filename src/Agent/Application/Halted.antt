-- ===== src/Agent/Application/Halted.antt =====
-- The agent after a transition to HALTED: what its groups still do.
use time_weaver.Prelude.{
  ℕ, ◌≡◌, refl, inl, inr, Bool, true, false, not, ◌||◌, Option, String, List, [], ◌∷◌, Dict, get,
  ◌==◌, nat_comparable, arith, Bool-cases,
}
use time_weaver.Agent.ApSchedulerAdapter.{Scheduler}
use time_weaver.Agent.Application.{Application, ExecutionStatus, execution_allowed, is_running}
use time_weaver.Agent.Application.Calls.{state}
use time_weaver.Agent.Application.Halting.{AllStop, Held, acknowledged_by-Held, rejected_by-Held}
use time_weaver.Agent.Application.Handlers.{
  handle_result_ack, handle_result_rejection, handle_operating_transition, passes, announced,
  becomes_halted, stop_each, halt,
}
use time_weaver.Agent.Application.Sequences.{start_group_execution}
use time_weaver.Agent.Envelope.{ResultEnvelope}
use time_weaver.Agent.OperatingState.{OperatingState, StateTransition}
use time_weaver.Agent.Outbox.{Transition}

-- What still comes to the groups: jobs of the scheduler that start them, and answers on their results.
pub data Arrival : Type 0 where
  due : (context : String) → (group : ℕ) → Arrival
  acknowledged : ResultEnvelope → List Transition → Arrival
  rejected : ResultEnvelope → Arrival

module _ {T : Type 0} (sch : Scheduler T) where
  unfoldable pub arrive : Arrival → Application T → Application T
  arrive (due context group) a = state (start_group_execution sch context group a)
  arrive (acknowledged e ts) a = state (handle_result_ack sch e ts a)
  arrive (rejected e) a = state (handle_result_rejection sch e a)

  abbrev pub arrive_all : List Arrival → Application T → Application T
  arrive_all [] a = a
  arrive_all (x ∷ xs) a = arrive_all xs (arrive x a)

stop_each-AllStop : (d : Dict ℕ ExecutionStatus) → AllStop (stop_each d)
unfolding stop_each get
stop_each-AllStop [] = λ g. tt
stop_each-AllStop ((group, status) ∷ d) = λ g. elim (Bool-cases (group == g)) [
  | inl here ↦ rw here refl
  | inr other ↦ rw other (stop_each-AllStop d g)
]

module _ {T : Type 0} (sch : Scheduler T) (before : Application T) where
  announced-Held :
      (fails : Bool) (tr : StateTransition) (a : Application T)
      → Held before a
      → Held before (announced fails tr a)
  announced-Held fails tr a held =
      elim (Bool-cases (passes tr OperatingState.healthy OperatingState.degraded)) [
        | inl falls ↦ rw falls held
        | inr other ↦
            rw other (elim (Bool-cases (passes tr OperatingState.degraded OperatingState.healthy)) [
              | inl rises ↦ rw rises held
              | inr neither ↦ rw neither held
            ])
      ]

  halts-Held :
      (number_in : String → Option ℕ) (fails : Bool) (tr : StateTransition)
      → becomes_halted tr ≡ true
      → Held before (handle_operating_transition sch number_in fails tr before)
  unfolding handle_operating_transition
  halts-Held number_in fails tr h = rw h (
      announced-Held fails tr (halt sch number_in before)
        (stop_each-AllStop before.group_execution_status, (refl, refl)))

  start-Held :
      (context : String) (group : ℕ) (a : Application T)
      → execution_allowed before ≡ false
      → Held before a
      → Held before (state (start_group_execution sch context group a))
  unfolding start_group_execution
  start-Held context group a blocked held =
      let here : execution_allowed a ≡ false = rw held.1.1 blocked in
      let stays : (not (execution_allowed a) || is_running group a) ≡ true = ground (arith, here) in
      rw stays held

  arrive-Held :
      (x : Arrival) (a : Application T)
      → execution_allowed before ≡ false
      → Held before a
      → Held before (arrive sch x a)
  unfolding arrive handle_result_ack handle_result_rejection
  arrive-Held (due context group) a blocked held = start-Held context group a blocked held
  arrive-Held (acknowledged e ts) a blocked held =
      acknowledged_by-Held sch before e ts e.manual_id a held
  arrive-Held (rejected e) a blocked held = rejected_by-Held sch before e e.manual_id a held

  arrive_all-Held :
      (xs : List Arrival) (a : Application T)
      → execution_allowed before ≡ false
      → Held before a
      → Held before (arrive_all sch xs a)
  arrive_all-Held [] a blocked held = held
  arrive_all-Held (x ∷ xs) a blocked held =
      arrive_all-Held xs (arrive sch x a) blocked (arrive-Held x a blocked held)

-- Once the agent has handled a transition to HALTED, in a state that forbids execution, no start of a
-- group, acknowledgement or rejection that arrives, in any number and order, launches a job or changes
-- the outbox.
pub halted-launched :
    {T : Type 0} (sch : Scheduler T) (number_in : String → Option ℕ) (fails : Bool)
    (tr : StateTransition) (arrivals : List Arrival) (a : Application T)
    → becomes_halted tr ≡ true
    → execution_allowed a ≡ false
    → let after = arrive_all sch arrivals (handle_operating_transition sch number_in fails tr a) in
      (after.launched ≡ a.launched) × (after.outbox ≡ a.outbox)
halted-launched sch number_in fails tr arrivals a h blocked =
    (arrive_all-Held sch a arrivals _ blocked (halts-Held sch a number_in fails tr h)).1
