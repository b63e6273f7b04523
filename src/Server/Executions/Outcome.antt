-- ===== src/Server/Executions/Outcome.antt =====
-- The two ways in which a result is accepted: as a repetition, or with a new row.
use time_weaver.Prelude.{
  ℕ, ◌+◌, ◌≡◌, true, Option, none, some, List, [], ◌∷◌, ◌++◌, text_comparable, nat_comparable, inl,
  inr, ◌⊎◌, arith, ok, Option-cases, returned-first, ◌>>=◌,
}
use time_weaver.Server.Database.{ScheduleGroup, ScheduleDetail, ExecutionLog, Database}
use time_weaver.Server.Executions.{
  ResultRecord, ResultPayload, find_result, clear_running, same_result,
}
use time_weaver.Server.Executions.Results.{
  accept_result, commit_rows, claimed_manual, insert_result, duplicate, target, apply_transitions,
  log_row,
}

-- The database with the row of a result.
abbrev pub inserted : ResultPayload → Database → Database
inserted p db = record db { log = db.log ++ log_row p db.next_id ∷ []; next_id = db.next_id + 1 }

-- `before` is the database, `seen` the one that the look-up saw.
pub data Outcome (p : ResultPayload) (now : ℕ) (seen : Database) (r : ResultRecord)
    (after : Database) : Type 0 where
  repeated :
      (row : ExecutionLog)
      → find_result p seen ≡ some row
      → same_result row p ≡ true
      → r.execution_id ≡ row.execution_id
      → after ≡ clear_running p seen
      → Outcome p now seen r after
  recorded :
      (manual : Option ℕ) (g : ScheduleGroup) (d : ScheduleDetail)
      → find_result p seen ≡ none
      → r.execution_id ≡ seen.next_id
      → after ≡ (apply_transitions p manual g d now (clear_running p (inserted p seen))).0
      → Outcome p now seen r after

duplicate-Outcome :
    (row : ExecutionLog) (p : ResultPayload) (now : ℕ) (db after : Database) (r : ResultRecord)
    → find_result p db ≡ some row
    → duplicate row p now db ≡ ok (r, after)
    → Outcome p now db r after
unfolding duplicate
duplicate-Outcome row p now db after r at h =
    repeated row at (ground (arith, h)) (ground (arith, h)) (ground (arith, h))

insert_result-Outcome :
    (p : ResultPayload) (manual : Option ℕ) (g : ScheduleGroup) (d : ScheduleDetail) (now : ℕ)
    (db after : Database) (r : ResultRecord)
    → insert_result p manual g d now db ≡ ok (r, after)
    → Outcome p now db r after
unfolding insert_result
insert_result-Outcome p manual g d now db after r h = elim (Option-cases (find_result p db)) [
  | inl absent ↦ recorded manual g d absent (ground (arith, absent, h)) (ground (arith, absent, h))
  | inr (row, at) ↦ duplicate-Outcome row p now db after r at (ground (arith, at, h))
]

-- What an accepted result saw and did, and that its target was right.
pub accept_result-Outcome :
    (racing : List ExecutionLog) (device : ℕ) (p : ResultPayload) (now : ℕ) (db after : Database)
    (r : ResultRecord)
    → accept_result racing device p now db ≡ ok (r, after)
    → ((rows : ScheduleGroup × ScheduleDetail) × (target device p db ≡ ok rows))
      × (Outcome p now db r after ⊎ Outcome p now (commit_rows racing db) r after)
unfolding accept_result
accept_result-Outcome racing device p now db after r h =
    let (rows, right, accepted) = returned-first (target device p db) _ h in
    (
      (rows, right),
      elim (Option-cases (find_result p db)) [
        | inr (row, at) ↦
            inl (duplicate-Outcome row p now db after r at (ground (arith, at, accepted)))
        | inl absent ↦
            let inserting : (claimed_manual p now db >>= λ manual.
            insert_result p manual rows.0 rows.1 now (commit_rows racing db))
                ≡ ok (r, after) =
              ground (arith, absent, accepted) in
            let (manual, _, done) = returned-first (claimed_manual p now db) _ inserting in
            inr (
              insert_result-Outcome p manual rows.0 rows.1 now (commit_rows racing db) after r done)
      ],
    )
