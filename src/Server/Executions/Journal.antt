-- ===== src/Server/Executions/Journal.antt =====
-- The rows of execution_log, which are kept for ever.
use time_weaver.Prelude.{
  ℕ, ◌≡◌, refl, Bool, Option, none, some, String, List, [], ◌∷◌, ◌++◌, text_comparable,
  nat_comparable, int_comparable, inl, inr, arith, ok, Option-cases, Result-cases,
}
use time_weaver.Server.Database.{
  ScheduleGroup, ScheduleDetail, ExecutionLog, Database, find_by, find_by-append,
}
use time_weaver.Server.Executions.{
  ResultRecord, ResultPayload, StartPayload, log_key, claim_manual_run, claim_row, take_claim,
  start_execution,
}
use time_weaver.Server.Executions.Results.{
  accept_result, commit_rows, commit_row, insert_log, apply_transitions, log_row,
}
use time_weaver.Server.Executions.Sweep.{sweep_batch}
use time_weaver.Server.Executions.Operations.{Operation, perform, history, committed, accept_event}
use time_weaver.Server.Executions.Outcome.{Outcome, repeated, recorded, accept_result-Outcome}

-- What a transaction may do to the log.
pub record LogGrows (a b : Database) : Type 0 where
  pub kept :
      (test : ExecutionLog → Bool) (row : ExecutionLog)
      → find_by test a.log ≡ some row
      → find_by test b.log ≡ some row

same_log : (a b : Database) → b.log ≡ a.log → LogGrows a b
same_log a b e = record { kept = λ test row h. rw e h }

LogGrows-trans : (a b c : Database) → LogGrows a b → LogGrows b c → LogGrows a c
LogGrows-trans a b c h k = record { kept = λ test row at. k.kept test row (h.kept test row at) }

append_row-LogGrows :
    (a b : Database) (row : ExecutionLog) → b.log ≡ a.log ++ row ∷ [] → LogGrows a b
append_row-LogGrows a b row e = record {
  kept = λ test r h. rw e (find_by-append test a.log (row ∷ []) r h);
}

commit_row-LogGrows : (row : ExecutionLog) (db : Database) → LogGrows db (commit_row row db)
unfolding commit_row
commit_row-LogGrows row db =
    elim (Option-cases (find_by (log_key row.execution_grp_id row.detail_id row.attempt) db.log)) [
      | inl absent ↦
          rw (absent, commit_row, insert_log)
            (append_row-LogGrows db _ (record row { execution_id = db.next_id }) refl)
      | inr (r, at) ↦ rw (at, commit_row, insert_log) (same_log db db refl)
    ]

commit_rows-LogGrows :
    (rows : List ExecutionLog) (db : Database) → LogGrows db (commit_rows rows db)
unfolding commit_rows
commit_rows-LogGrows [] db = same_log db db refl
commit_rows-LogGrows (row ∷ rows) db =
    LogGrows-trans db (commit_row row db) _ (commit_row-LogGrows row db)
      (commit_rows-LogGrows rows (commit_row row db))

pub apply_transitions-log :
    (p : ResultPayload) (manual : Option ℕ) (g : ScheduleGroup) (d : ScheduleDetail) (now : ℕ)
    (db : Database)
    → (apply_transitions p manual g d now db).0.log ≡ db.log
unfolding apply_transitions
apply_transitions-log p (some id) g d now db = refl
apply_transitions-log p none g d now db = ground arith

Outcome-LogGrows :
    (p : ResultPayload) (now : ℕ) (seen after : Database) (r : ResultRecord)
    → Outcome p now seen r after
    → LogGrows seen after
Outcome-LogGrows p now seen after r (repeated row at same id done) =
    same_log seen after (rw done refl)
Outcome-LogGrows p now seen after r (recorded manual g d absent id done) =
    append_row-LogGrows seen after (log_row p seen.next_id)
      (rw done (apply_transitions-log p manual g d now _))

claim-LogGrows :
    (device id : ℕ) (token : String) (now : ℕ) (db : Database)
    → LogGrows db (committed (claim_manual_run device id token now db) db)
unfolding claim_manual_run
claim-LogGrows device id token now db = elim (Result-cases (claim_row device id db)) [
  | inl (e, at) ↦ rw at (same_log db db refl)
  | inr (m, at) ↦ rw at (unfold take_claim in same_log db _ (ground arith))
]

start-LogGrows :
    (device : ℕ) (p : StartPayload) (now : ℕ) (db : Database)
    → LogGrows db (committed (start_execution device p now db) db)
unfolding start_execution
start-LogGrows device p now db = elim (Result-cases (start_execution device p now db)) [
  | inl (e, at) ↦ unfold start_execution in rw at (same_log db db refl)
  | inr ((time, db'), at) ↦ same_log db _ (ground arith)
]

accept_result-LogGrows :
    (racing : List ExecutionLog) (device : ℕ) (p : ResultPayload) (now : ℕ) (db after : Database)
    (r : ResultRecord)
    → accept_result racing device p now db ≡ ok (r, after)
    → LogGrows db after
accept_result-LogGrows racing device p now db after r at =
    elim (accept_result-Outcome racing device p now db after r at).1 [
      | inl o ↦ Outcome-LogGrows p now db after r o
      | inr o ↦
          LogGrows-trans db (commit_rows racing db) after (commit_rows-LogGrows racing db)
            (Outcome-LogGrows p now (commit_rows racing db) after r o)
    ]

perform-LogGrows : (op : Operation) (now : ℕ) (db : Database) → LogGrows db (perform op now db)
unfolding perform
perform-LogGrows (Operation.claims device id token) now db = claim-LogGrows device id token now db
perform-LogGrows (Operation.starts device p) now db = start-LogGrows device p now db
perform-LogGrows (Operation.tells event) now db = unfold accept_event in same_log db _ refl
perform-LogGrows (Operation.sweeps locked batch) now db = unfold sweep_batch in same_log db _ refl
perform-LogGrows (Operation.reports racing device p) now db =
    elim (Result-cases (accept_result racing device p now db)) [
      | inl (e, at) ↦ rw at (same_log db db refl)
      | inr ((r, after), at) ↦ rw at (accept_result-LogGrows racing device p now db after r at)
    ]

pub history-LogGrows : (ops : List (Operation × ℕ)) (db : Database) → LogGrows db (history ops db)
history-LogGrows [] db = same_log db db refl
history-LogGrows ((op, now) ∷ ops) db =
    LogGrows-trans db (perform op now db) _ (perform-LogGrows op now db)
      (history-LogGrows ops (perform op now db))
