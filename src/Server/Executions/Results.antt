-- ===== src/Server/Executions/Results.antt =====
-- AgentExecutionRepository.accept_result. Other transactions may commit rows of execution_log between
-- its look-up and its insert: they are the argument `racing`.
use time_weaver.Prelude.{
  ℕ, ◌+◌, Bool, true, false, ◌&&◌, not, Option, none, some, String, List, [], ◌∷◌, ◌++◌, pos, ◌==◌,
  if◌then◌else◌, text_comparable, nat_comparable, int_comparable, is_none, Result, ok, error, ◌>>=◌,
  ◌>>◌, require,
}
use time_weaver.Server.Database.{
  ScheduleGroup, ScheduleDetail, ManualExecution, ExecutionLog, Database, find_by, update_where,
}
use time_weaver.Server.Executions.{
  ExecutionRepositoryError, not_found, invalid_request, unavailable, claim_expired,
  AppliedTransition, of_manual, of_group, of_detail, ResultRecord, ResultPayload, found, group_of,
  detail_of, manual_of, set_manual, has_passed, same_result, log_key, find_result, clear_running,
}

-- AgentExecutionRepository._duplicate, and the clearing after it.
unfoldable pub duplicate :
    ExecutionLog
    → ResultPayload
    → (now : ℕ) → Database
    → Result ExecutionRepositoryError (ResultRecord × Database)
unfolding same_result
duplicate existing p now db = do
  require (same_result existing p) invalid_request
  ok (
    record {
      execution_id = existing.execution_id;
      duplicate = true;
      applied_transitions = [];
      db_now = now;
    },
    clear_running p db,
  )

abbrev or_empty_text : Option String → String
or_empty_text none = ""
or_empty_text (some t) = t

-- hmac.compare_digest, which raises TypeError on None.
abbrev same_digest : Option String → Option String → Result ExecutionRepositoryError Bool
same_digest stored none = error unavailable
same_digest stored (some token) = ok (or_empty_text stored == token)

abbrev is_live : ManualExecution → ℕ → Bool
is_live m now = not (is_none m.claim_expires_at) && not (has_passed m.claim_expires_at now)

-- The check of the claim of a manual run; the digests are compared only while it is processed.
unfoldable pub check_claim :
    ResultPayload → (now : ℕ) → ManualExecution → Result ExecutionRepositoryError (Unit {0})
check_claim p now m =
    if not (m.status == "processing") then error (claim_expired m.claim_expires_at) else do
      same ← same_digest m.claim_token p.claim_token
      require (same && is_live m now) (claim_expired m.claim_expires_at)

-- The manual run that the payload names, if it names one.
unfoldable pub claimed_manual :
    ResultPayload → (now : ℕ) → Database → Result ExecutionRepositoryError (Option ℕ)
unfolding check_claim
claimed_manual p now db = elim p.manual_id [
  | none ↦ ok none
  | some id ↦ do
    manual ← found (manual_of id db)
    require (manual.detail_id == p.detail_id) not_found
    check_claim p now manual
    ok (some id)
]

-- The row that the result inserts.
abbrev pub log_row : ResultPayload → (execution_id : ℕ) → ExecutionLog
log_row p id = record {
  execution_id = id;
  execution_grp_id = p.execution_grp_id;
  schedule_id = p.schedule_id;
  detail_id = p.detail_id;
  attempt = p.attempt;
  manual_id = p.manual_id;
  start_time = p.started_at;
  end_time = p.finished_at;
  result_code = p.result_code;
  result_message = p.result_message;
  environment_info = p.environment_info;
}

abbrev row_key : ExecutionLog → ExecutionLog → Bool
row_key row = log_key row.execution_grp_id row.detail_id row.attempt

-- INSERT INTO execution_log: the row with the next id, or none where the unique key of the table has
-- a row already, which is the error 1062.
unfoldable pub insert_log : ExecutionLog → Database → Option Database
insert_log row db = elim (find_by (row_key row) db.log) [
  | none ↦ some (record db {
    log = db.log ++ record row { execution_id = db.next_id } ∷ [];
    next_id = db.next_id + 1;
  })
  | some _ ↦ none
]

abbrev kept_or : Database → Option Database → Database
kept_or db none = db
kept_or db (some inserted) = inserted

-- The rows that others commit, each unless the table refuses it.
unfoldable pub commit_row : ExecutionLog → Database → Database
unfolding insert_log
commit_row row db = kept_or db (insert_log row db)

unfoldable pub commit_rows : List ExecutionLog → Database → Database
unfolding commit_row
commit_rows [] db = db
commit_rows (row ∷ rows) db = commit_rows rows (commit_row row db)

abbrev pub failed : ResultPayload → Bool
failed p = not (p.result_code == pos 0)

-- The status updates that an accepted result brings.
unfoldable pub apply_transitions :
    ResultPayload
    → Option ℕ
    → ScheduleGroup
    → ScheduleDetail
    → (now : ℕ) → Database
    → Database × List AppliedTransition
apply_transitions p (some id) group detail now db =
    let status = if p.result_code == pos 0 then "done" else "failed" in
    (set_manual id status none none now db, of_manual id status ∷ [])
apply_transitions p none group detail now db =
    if failed p && group.is_error_stop
    then (
      record db {
        groups =
            update_where (λ g. g.schedule_id == p.schedule_id)
              (λ g. record g { status = "error"; modified_at = some now }) db.groups;
      },
      of_group p.schedule_id "error" ∷ [],
    )
    else if failed p && detail.is_error_stop
    then (
      record db {
        details =
            update_where (λ d. d.detail_id == p.detail_id)
              (λ d. record d { status = "error"; modified_at = some now }) db.details;
      },
      of_detail p.detail_id "error" ∷ [],
    )
    else (db, [])

-- What follows the insert: with the row, the transitions; without it, the row that has the key, and
-- the database's error where there is none after all.
abbrev pub after_insert :
    ResultPayload
    → Option ℕ
    → ScheduleGroup
    → ScheduleDetail
    → (now : ℕ) → Database
    → Option Database
    → Result ExecutionRepositoryError (ResultRecord × Database)
after_insert p manual group detail now db none = elim (find_result p db) [
  | some existing ↦ duplicate existing p now db
  | none ↦ error unavailable
]
after_insert p manual group detail now db (some inserted) =
    let (db', transitions) =
      apply_transitions p manual group detail now (clear_running p inserted) in
    ok (
      record {
        execution_id = db.next_id;
        duplicate = false;
        applied_transitions = transitions;
        db_now = now;
      },
      db',
    )

-- The insert, with its handling of a duplicate key, and what follows it.
unfoldable pub insert_result :
    ResultPayload
    → Option ℕ
    → ScheduleGroup
    → ScheduleDetail
    → (now : ℕ) → Database
    → Result ExecutionRepositoryError (ResultRecord × Database)
unfolding duplicate apply_transitions insert_log
insert_result p manual group detail now db =
    after_insert p manual group detail now db (insert_log (log_row p db.next_id) db)

-- The rows of the target, if the device may report on it.
unfoldable pub target :
    (device_id : ℕ)
    → ResultPayload
    → Database
    → Result ExecutionRepositoryError (ScheduleGroup × ScheduleDetail)
target device p db = do
  candidate ← found (detail_of p.detail_id db)
  group ← found (group_of candidate.schedule_id db)
  detail ← found (detail_of p.detail_id db)
  require
      (group.target_device == device
        && group.schedule_id == p.schedule_id
        && detail.schedule_id == p.schedule_id)
      not_found
  ok (group, detail)

unfoldable pub accept_result :
    (racing : List ExecutionLog)
    → (device_id : ℕ) → ResultPayload
    → (now : ℕ) → Database
    → Result ExecutionRepositoryError (ResultRecord × Database)
unfolding target duplicate claimed_manual insert_result commit_rows
accept_result racing device p now db = do
  rows ← target device p db
  elim (find_result p db) [
    | some existing ↦ duplicate existing p now db
    | none ↦ do
      manual ← claimed_manual p now db
      insert_result p manual rows.0 rows.1 now (commit_rows racing db)
  ]
