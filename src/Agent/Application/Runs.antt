-- ===== src/Agent/Application/Runs.antt =====
-- Along any calls of app.py, the sequences of a group run one after another.
use time_weaver.Prelude.{
  ℕ, ◌≡◌, refl, sym, ◌∙◌, inl, inr, Bool, true, false, Option, none, some, String, List, [], ◌∷◌,
  Dict, get, put, get-put, ◌==◌, if◌then◌else◌, is_empty, nat_comparable, text_comparable,
  Bool-cases, same_refl,
}
use time_weaver.Agent.ApSchedulerAdapter.{Scheduler}
use time_weaver.Agent.Application.{Application, ExecutionStatus, Reply, is_running, stop_group}
use time_weaver.Agent.Application.Calls.{
  Call, starts, executes, acknowledges, rejects, excludes, marks, transitions, others, state,
  perform, run,
}
use time_weaver.Agent.Application.Handlers.{
  exclude_task, handle_result_ack, handle_result_rejection, handle_operating_transition,
  after_removal, apply_transitions, acknowledged_by, acknowledged_group, rejected_by, unscheduled,
  passes, announced, becomes_halted,
}
use time_weaver.Agent.Application.Sequences.{
  remove_first, later_of, advance, advance_with, finish_in, finish_at, finish_of, finish_detail,
}
use time_weaver.Agent.Envelope.{ResultEnvelope}
use time_weaver.Agent.OperatingState.{OperatingState, StateTransition}
use time_weaver.Agent.Outbox.{Transition}
use time_weaver.Agent.SyncCoordinator.Apply.{Outcome, returned, raised}
use time_weaver.Agent.Application.Pending.{
  AtMostOne, NonePending, IsOrdered, runs-Ordered, stops-Ordered, put-Ordered,
}
use time_weaver.Agent.Application.Barrier.{pop_only, launch-IsOrdered, start-IsOrdered}

runs_of_pending :
    {T : Type 0} (group : ℕ) (a : Application T) (p : ℕ × List String) (d : Dict ℕ (List String))
    → IsOrdered a
    → get group a.task_completion_status ≡ some (p ∷ d)
    → is_running group a ≡ true
runs_of_pending group a p d o at = elim (Bool-cases (is_running group a)) [
  | inl runs ↦ runs
  | inr idle ↦ absurd (rw at at (o.idle group idle))
]

module _ {T : Type 0} (sch : Scheduler T) (group : ℕ) where
  advance-IsOrdered :
      (next : Option ℕ) (a : Application T)
      → IsOrdered a
      → is_running group a ≡ true
      → NonePending (get group a.task_completion_status)
      → IsOrdered (state (advance sch group [] next a))
  advance-IsOrdered none a o runs done = stops-Ordered group o done
  advance-IsOrdered (some n) a o runs done = launch-IsOrdered sch group n a o runs done

  advance_with-IsOrdered :
      (next_run : Bool) (sequence : ℕ) (status : Option ExecutionStatus) (a : Application T)
      → IsOrdered a
      → is_running group a ≡ true
      → NonePending (get group a.task_completion_status)
      → IsOrdered (state (advance_with sch next_run group sequence [] status a))
  advance_with-IsOrdered next_run sequence none a o runs done = o
  advance_with-IsOrdered next_run sequence (some status) a o runs done =
      advance-IsOrdered (later_of next_run sequence status) a o runs done

  finish_in-IsOrdered :
      (next_run : Bool) (sequence : ℕ) (ids remaining : List String) (a : Application T)
      → IsOrdered a
      → is_running group a ≡ true
      → IsOrdered (state (finish_in sch next_run group sequence ((sequence, ids) ∷ []) remaining a))
  unfolding put
  finish_in-IsOrdered next_run sequence ids remaining a o runs =
      elim (Bool-cases (is_empty remaining)) [
        | inl over ↦
            rw (over, pop_only sequence ids)
              (advance_with-IsOrdered next_run sequence (get group a.group_execution_status) _
                (put-Ordered group o [] tt (λ e. tt)) runs
                (rw (get-put group group [] a.task_completion_status, same_refl group) tt))
        | inr more ↦
            rw (more, same_refl sequence)
              (put-Ordered group o ((sequence, remaining) ∷ []) more
                (λ e. let bad : true ≡ false = sym runs ∙ e in cc bad))
      ]

  finish_one-IsOrdered :
      (next_run : Bool) (sequence key : ℕ) (detail : String) (ids : List String) (a : Application T)
      → IsOrdered a
      → get group a.task_completion_status ≡ some ((key, ids) ∷ [])
      → IsOrdered (
          state (
            finish_at sch next_run group sequence detail
              ((key, ids) ∷ [])
              (if key == sequence then some ids else none)
              a))
  finish_one-IsOrdered next_run sequence key detail ids a o at =
      elim (Bool-cases (key == sequence)) [
        | inl here ↦
            let same : key ≡ sequence = (nat_comparable.same_iff key sequence).0 here in
            rw (here, same)
              (finish_in-IsOrdered next_run sequence ids (remove_first detail ids) a o
                (runs_of_pending group a (key, ids) [] o at))
        | inr other ↦ rw other o
      ]

  finish_of-IsOrdered :
      (next_run : Bool) (sequence : ℕ) (detail : String) (d : Option (Dict ℕ (List String)))
      (a : Application T)
      → IsOrdered a
      → AtMostOne d
      → get group a.task_completion_status ≡ d
      → IsOrdered (state (finish_of sch next_run group sequence detail d a))
  unfolding get
  finish_of-IsOrdered next_run sequence detail none a o one at = o
  finish_of-IsOrdered next_run sequence detail (some []) a o one at = o
  finish_of-IsOrdered next_run sequence detail (some ((key, ids) ∷ [])) a o one at =
      finish_one-IsOrdered next_run sequence key detail ids a o at
  finish_of-IsOrdered next_run sequence detail (some (p ∷ q ∷ d)) a o one at = absurd one

  finish_detail-IsOrdered :
      (sequence : ℕ) (detail : String) (next_run : Bool) (a : Application T)
      → IsOrdered a
      → IsOrdered (state (finish_detail sch group sequence detail next_run a))
  unfolding finish_detail
  finish_detail-IsOrdered sequence detail next_run a o =
      finish_of-IsOrdered next_run sequence detail (get group a.task_completion_status) a o
        (o.single group) refl

module _ {T : Type 0} (sch : Scheduler T) where
  after_removal-IsOrdered :
      (r : Outcome T) (a : Application T) (rest : Application T → Reply T)
      → IsOrdered a
      → ((b : Application T) → IsOrdered b → IsOrdered (state (rest b)))
      → IsOrdered (state (after_removal r a rest))
  after_removal-IsOrdered (returned t) a rest o keeps = keeps _ o
  after_removal-IsOrdered (raised t) a rest o keeps = o

  apply_transitions-IsOrdered :
      (group : ℕ) (detail : String) (ts : List Transition) (rest : Application T → Reply T)
      (a : Application T)
      → IsOrdered a
      → ((b : Application T) → IsOrdered b → IsOrdered (state (rest b)))
      → IsOrdered (state (apply_transitions sch group detail ts rest a))
  unfolding apply_transitions exclude_task
  apply_transitions-IsOrdered group detail [] rest a o keeps = keeps a o
  apply_transitions-IsOrdered group detail (t ∷ ts) rest a o keeps =
      elim (Bool-cases (t.target == "schedule_detail")) [
        | inl one ↦ rw one (apply_transitions-IsOrdered group detail ts rest _ o keeps)
        | inr other ↦ rw other (elim (Bool-cases (t.target == "schedule_group")) [
          | inl all ↦ rw all (
              after_removal-IsOrdered (unscheduled sch group (stop_group group a))
                (stop_group group a) (apply_transitions sch group detail ts rest) o
                (λ b ob. apply_transitions-IsOrdered group detail ts rest b ob keeps))
          | inr neither ↦ rw neither (apply_transitions-IsOrdered group detail ts rest a o keeps)
        ])
      ]

  acknowledged_group-IsOrdered :
      (e : ResultEnvelope) (ts : List Transition) (status : Option ExecutionStatus)
      (a : Application T)
      → IsOrdered a
      → IsOrdered (state (acknowledged_group sch e ts status a))
  acknowledged_group-IsOrdered e ts none a o = o
  acknowledged_group-IsOrdered e ts (some status) a o =
      apply_transitions-IsOrdered e.schedule_id e.detail_id ts _ a o
        (λ b ob. finish_detail-IsOrdered sch e.schedule_id e.sequence e.detail_id true b ob)

  acknowledged_by-IsOrdered :
      (e : ResultEnvelope) (ts : List Transition) (manual : Option ℕ) (a : Application T)
      → IsOrdered a
      → IsOrdered (state (acknowledged_by sch e ts manual a))
  acknowledged_by-IsOrdered e ts (some id) a o = o
  acknowledged_by-IsOrdered e ts none a o =
      acknowledged_group-IsOrdered e ts (get e.schedule_id a.group_execution_status) a o

  rejected_by-IsOrdered :
      (e : ResultEnvelope) (manual : Option ℕ) (a : Application T)
      → IsOrdered a
      → IsOrdered (state (rejected_by sch e manual a))
  rejected_by-IsOrdered e (some id) a o = o
  rejected_by-IsOrdered e none a o =
      finish_detail-IsOrdered sch e.schedule_id e.sequence e.detail_id false _ o

  announced-IsOrdered :
      (fails : Bool) (tr : StateTransition) (a : Application T)
      → IsOrdered a
      → IsOrdered (announced fails tr a)
  announced-IsOrdered fails tr a o =
      elim (Bool-cases (passes tr OperatingState.healthy OperatingState.degraded)) [
        | inl falls ↦ rw falls o
        | inr other ↦
            rw other (elim (Bool-cases (passes tr OperatingState.degraded OperatingState.healthy)) [
              | inl rises ↦ rw rises o
              | inr neither ↦ rw neither o
            ])
      ]

  transition-IsOrdered :
      (number_in : String → Option ℕ) (fails : Bool) (tr : StateTransition) (a : Application T)
      → IsOrdered a
      → IsOrdered (handle_operating_transition sch number_in fails tr a)
  unfolding handle_operating_transition
  transition-IsOrdered number_in fails tr a o = elim (Bool-cases (becomes_halted tr)) [
    | inl halts ↦ rw halts (announced-IsOrdered fails tr _ o)
    | inr goes_on ↦ rw goes_on (announced-IsOrdered fails tr a o)
  ]

  perform-IsOrdered :
      (number_in : String → Option ℕ) (call : Call T) (a : Application T)
      → IsOrdered a
      → IsOrdered (perform sch number_in call a)
  unfolding perform handle_result_ack handle_result_rejection exclude_task
  perform-IsOrdered number_in (starts context group) a o = start-IsOrdered sch context group a o
  perform-IsOrdered number_in (executes group) a o = runs-Ordered group o
  perform-IsOrdered number_in (acknowledges e ts) a o =
      acknowledged_by-IsOrdered e ts e.manual_id a o
  perform-IsOrdered number_in (rejects e) a o = rejected_by-IsOrdered e e.manual_id a o
  perform-IsOrdered number_in (excludes group detail) a o = o
  perform-IsOrdered number_in (marks markers) a o = o
  perform-IsOrdered number_in (transitions fails tr) a o =
      transition-IsOrdered number_in fails tr a o
  perform-IsOrdered number_in (others adapter outbox snapshot) a o = o

  -- Along any calls, whatever the scheduler raises and other threads do in between, each group has at
  -- most one sequence with results outstanding, and none while it does not run, so that neither the
  -- next sequence nor another start of the group overtakes a result: if this holds before the calls, it
  -- holds after them.
  pub run-IsOrdered :
      (number_in : String → Option ℕ) (calls : List (Call T)) (a : Application T)
      → IsOrdered a
      → IsOrdered (run sch number_in calls a)
  run-IsOrdered number_in [] a o = o
  run-IsOrdered number_in (call ∷ calls) a o =
      run-IsOrdered number_in calls _ (perform-IsOrdered number_in call a o)
