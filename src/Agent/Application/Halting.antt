-- ===== src/Agent/Application/Halting.antt =====
-- After the agent has halted, no result starts a further sequence.
use time_weaver.Prelude.{
  ℕ, ◌≡◌, refl, inl, inr, Bool, true, false, Option, none, some, String, List, [], ◌∷◌, Dict, get,
  pop, get-put, ◌==◌, is_empty, nat_comparable, arith, Bool-cases, text_comparable,
}
use time_weaver.Agent.ApSchedulerAdapter.{Scheduler}
use time_weaver.Agent.Application.{
  Application, ExecutionStatus, Reply, stop_group, stopped, with_status,
}
use time_weaver.Agent.Application.Calls.{state}
use time_weaver.Agent.Application.Handlers.{
  excluding, exclude_task, after_removal, apply_transitions, acknowledged_by, acknowledged_group,
  rejected_by, unscheduled, or_own,
}
use time_weaver.Agent.Application.Sequences.{
  later_of, advance_with, finish_in, finish_at, finish_of, finish_detail, remove_first,
}
use time_weaver.Agent.Envelope.{ResultEnvelope}
use time_weaver.Agent.Outbox.{Transition}
use time_weaver.Agent.SyncCoordinator.Apply.{Outcome, returned, raised}

-- A group without a context, or one that stops after the sequence that runs.
abbrev pub Stopping : Option ExecutionStatus → Type 0
Stopping none = Unit
Stopping (some status) = status.stop_after_current_sequence ≡ true

abbrev pub AllStop : Dict ℕ ExecutionStatus → Type 0
AllStop d = (group : ℕ) → Stopping (get group d)

-- Every group stops, and the jobs launched and the outbox are those of before.
abbrev pub Held : {T : Type 0} → Application T → Application T → Type 0
Held before a =
    AllStop a.group_execution_status × ((a.launched ≡ before.launched) × (a.outbox ≡ before.outbox))

change-AllStop :
    (change : ExecutionStatus → ExecutionStatus) (group : ℕ) (status : Option ExecutionStatus)
    (d : Dict ℕ ExecutionStatus)
    → ((s : ExecutionStatus)
        → s.stop_after_current_sequence ≡ true
        → (change s).stop_after_current_sequence ≡ true)
    → Stopping status
    → AllStop d
    → AllStop (with_status status change group d)
change-AllStop change group none d keeps here all = all
change-AllStop change group (some s) d keeps here all = λ g. elim (Bool-cases (group == g)) [
  | inl same ↦ rw (get-put group g (change s) d, same) (keeps s here)
  | inr other ↦ rw (get-put group g (change s) d, other) (all g)
]

module _ {T : Type 0} (sch : Scheduler T) (before : Application T) where
  stop_group-Held :
      (group : ℕ) (a : Application T) → Held before a → Held before (stop_group group a)
  stop_group-Held group a (all, same) = (
    change-AllStop stopped group (get group a.group_execution_status) a.group_execution_status
        (λ s h. refl) (all group) all,
    same,
  )

  exclude_task-Held :
      (group : ℕ) (detail : String) (a : Application T)
      → Held before a
      → Held before (exclude_task group detail a)
  unfolding exclude_task
  exclude_task-Held group detail a (all, same) = (
    change-AllStop (excluding detail) group (get group a.group_execution_status)
        a.group_execution_status (λ s h. h) (all group) all,
    same,
  )

  stopping-later :
      (next_run : Bool) (sequence : ℕ) (status : ExecutionStatus)
      → status.stop_after_current_sequence ≡ true
      → later_of next_run sequence status ≡ none
  stopping-later next_run sequence status h = ground (arith, h)

  advance_with-Held :
      (next_run : Bool) (group sequence : ℕ) (d : Dict ℕ (List String))
      (status : Option ExecutionStatus) (a : Application T)
      → Stopping status
      → Held before a
      → Held before (state (advance_with sch next_run group sequence d status a))
  advance_with-Held next_run group sequence d none a here held = held
  advance_with-Held next_run group sequence d (some status) a here held =
      rw (stopping-later next_run sequence status here)
        (elim (Bool-cases (is_empty d)) [ inl over ↦ rw over held | inr more ↦ rw more held ])

  finish_in-Held :
      (next_run : Bool) (group sequence : ℕ) (d : Dict ℕ (List String)) (remaining : List String)
      (a : Application T)
      → Held before a
      → Held before (state (finish_in sch next_run group sequence d remaining a))
  finish_in-Held next_run group sequence d remaining a held =
      elim (Bool-cases (is_empty remaining)) [
        | inl over ↦ rw over (
            advance_with-Held next_run group sequence (pop sequence d)
              (get group a.group_execution_status) _ (held.0 group) held)
        | inr more ↦ rw more held
      ]

  finish_at-Held :
      (next_run : Bool) (group sequence : ℕ) (detail : String) (d : Dict ℕ (List String))
      (ids : Option (List String)) (a : Application T)
      → Held before a
      → Held before (state (finish_at sch next_run group sequence detail d ids a))
  finish_at-Held next_run group sequence detail d none a held = held
  finish_at-Held next_run group sequence detail d (some ids) a held =
      finish_in-Held next_run group sequence d (remove_first detail ids) a held

  finish_of-Held :
      (next_run : Bool) (group sequence : ℕ) (detail : String) (d : Option (Dict ℕ (List String)))
      (a : Application T)
      → Held before a
      → Held before (state (finish_of sch next_run group sequence detail d a))
  finish_of-Held next_run group sequence detail none a held = held
  finish_of-Held next_run group sequence detail (some d) a held =
      finish_at-Held next_run group sequence detail d (get sequence d) a held

  finish_detail-Held :
      (group sequence : ℕ) (detail : String) (next_run : Bool) (a : Application T)
      → Held before a
      → Held before (state (finish_detail sch group sequence detail next_run a))
  unfolding finish_detail
  finish_detail-Held group sequence detail next_run a held =
      finish_of-Held next_run group sequence detail (get group a.task_completion_status) a held

  after_removal-Held :
      (r : Outcome T) (a : Application T) (rest : Application T → Reply T)
      → Held before a
      → ((b : Application T) → Held before b → Held before (state (rest b)))
      → Held before (state (after_removal r a rest))
  after_removal-Held (returned t) a rest held keeps = keeps _ held
  after_removal-Held (raised t) a rest held keeps = held

  apply_transitions-Held :
      (group : ℕ) (detail : String) (ts : List Transition) (rest : Application T → Reply T)
      (a : Application T)
      → Held before a
      → ((b : Application T) → Held before b → Held before (state (rest b)))
      → Held before (state (apply_transitions sch group detail ts rest a))
  unfolding apply_transitions
  apply_transitions-Held group detail [] rest a held keeps = keeps a held
  apply_transitions-Held group detail (t ∷ ts) rest a held keeps =
      elim (Bool-cases (t.target == "schedule_detail")) [
        | inl one ↦ rw one (
            apply_transitions-Held group detail ts rest _
              (exclude_task-Held group (or_own t.id detail) a held) keeps)
        | inr other ↦ rw other (elim (Bool-cases (t.target == "schedule_group")) [
          | inl all ↦ rw all (
              after_removal-Held (unscheduled sch group (stop_group group a)) (stop_group group a)
                (apply_transitions sch group detail ts rest) (stop_group-Held group a held)
                (λ b hb. apply_transitions-Held group detail ts rest b hb keeps))
          | inr neither ↦ rw neither (apply_transitions-Held group detail ts rest a held keeps)
        ])
      ]

  acknowledged_group-Held :
      (e : ResultEnvelope) (ts : List Transition) (status : Option ExecutionStatus)
      (a : Application T)
      → Held before a
      → Held before (state (acknowledged_group sch e ts status a))
  acknowledged_group-Held e ts none a held = held
  acknowledged_group-Held e ts (some status) a held =
      apply_transitions-Held e.schedule_id e.detail_id ts _ a held
        (λ b hb. finish_detail-Held e.schedule_id e.sequence e.detail_id true b hb)

  pub acknowledged_by-Held :
      (e : ResultEnvelope) (ts : List Transition) (manual : Option ℕ) (a : Application T)
      → Held before a
      → Held before (state (acknowledged_by sch e ts manual a))
  acknowledged_by-Held e ts (some id) a held = held
  acknowledged_by-Held e ts none a held =
      acknowledged_group-Held e ts (get e.schedule_id a.group_execution_status) a held

  pub rejected_by-Held :
      (e : ResultEnvelope) (manual : Option ℕ) (a : Application T)
      → Held before a
      → Held before (state (rejected_by sch e manual a))
  rejected_by-Held e (some id) a held = held
  rejected_by-Held e none a held =
      finish_detail-Held e.schedule_id e.sequence e.detail_id false _
        (stop_group-Held e.schedule_id a held)
