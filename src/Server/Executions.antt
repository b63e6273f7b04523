-- ===== src/Server/Executions.antt =====
-- AgentExecutionRepository of server/repositories/agent_execution.py: claims of manual runs, starts,
-- results and events, each a transaction on the tables. An error rolls the transaction back.
pub mod Results
pub mod Operations
pub mod Claims
pub mod Settling
pub mod Exclusion
pub mod Outcome
pub mod Routes
pub mod Journal
pub mod Repeats
pub mod Sweep
pub mod SweepEnds
pub mod Retry
mod Examples
use time_weaver.Prelude.{
  ℕ, ◌+◌, ◌-◌, ◌≡◌, refl, Bool, true, false, ◌&&◌, ◌||◌, not, Option, none, some, String, List, [],
  ◌∷◌, ◌++◌, ℤ, pos, ◌==◌, if◌then◌else◌, leb, text_comparable, nat_comparable, int_comparable,
  option_same, is_none, Result, ok, error, ◌>>=◌, ◌>>◌, require,
}
use time_weaver.Server.Database.{
  ScheduleGroup, ScheduleDetail, ManualExecution, ExecutionLog, ExecutionRunning, AgentEvent,
  Database, find_by, update_where, delete_where,
}

-- ExecutionRepositoryError by its code; a claim that has expired comes with the time, if there is one.
pub data ExecutionRepositoryError : Type 0 where
  not_found already_claimed invalid_request unavailable : ExecutionRepositoryError
  claim_expired : Option ℕ → ExecutionRepositoryError

pub record ClaimRecord : Type 0 where
  pub manual_id : ℕ
  pub claim_token : String
  pub claim_expires_at : ℕ
  pub db_now : ℕ

-- An applied transition: its target, its id, and the new status.
pub data AppliedTransition : Type 0 where
  of_manual : ℕ → String → AppliedTransition
  of_group : ℕ → String → AppliedTransition
  of_detail : String → String → AppliedTransition

pub record ResultRecord : Type 0 where
  pub execution_id : ℕ
  pub duplicate : Bool
  pub applied_transitions : List AppliedTransition
  pub db_now : ℕ

-- The payload of start_execution.
pub record StartPayload : Type 0 where
  pub execution_grp_id : String
  pub schedule_id : ℕ
  pub detail_id : String
  pub attempt : ℕ
  pub started_at : ℕ

-- The payload of accept_result.
pub record ResultPayload : Type 0 where
  pub execution_grp_id : String
  pub schedule_id : ℕ
  pub detail_id : String
  pub attempt : ℕ
  pub manual_id : Option ℕ
  pub claim_token : Option String
  pub started_at : ℕ
  pub finished_at : ℕ
  pub result_code : ℤ
  pub result_message : Option String
  pub environment_info : Option String

-- MANUAL_CLAIM_TTL_MINUTES, in seconds
abbrev pub claim_ttl : ℕ
claim_ttl = 1800

-- `if not row: raise ExecutionRepositoryError("not_found")`
abbrev pub found {ℓ} : {A : Type ℓ} → Option A → Result ExecutionRepositoryError A
found none = error not_found
found (some row) = ok row

-- The rows by their keys.
abbrev pub group_of : ℕ → Database → Option ScheduleGroup
group_of id db = find_by (λ g. g.schedule_id == id) db.groups

abbrev pub detail_of : String → Database → Option ScheduleDetail
detail_of id db = find_by (λ d. d.detail_id == id) db.details

abbrev pub live_detail_of : String → Database → Option ScheduleDetail
live_detail_of id db = find_by (λ d. d.detail_id == id && not d.deleted) db.details

abbrev pub manual_of : ℕ → Database → Option ManualExecution
manual_of id db = find_by (λ m. m.manual_id == id) db.manuals

-- UPDATE manual_execution SET status, claim_token, claim_expires_at, modified_at WHERE manual_id
abbrev pub set_manual :
    ℕ
    → (status : String) → (token : Option String) → (expires : Option ℕ) → (now : ℕ) → Database
    → Database
set_manual id status token expires now db = record db {
  manuals =
      update_where (λ m. m.manual_id == id)
        (λ m. record m {
          status = status;
          claim_token = token;
          claim_expires_at = expires;
          modified_at = some now;
        })
        db.manuals;
}

abbrev pub has_passed : Option ℕ → ℕ → Bool
has_passed none now = false
has_passed (some expires) now = leb expires now

abbrev pub is_expired : ManualExecution → ℕ → Bool
is_expired m now = m.status == "processing" && has_passed m.claim_expires_at now

-- The locked row of the run, if the device may claim it.
unfoldable pub claim_row :
    (device_id manual_id : ℕ) → Database → Result ExecutionRepositoryError ManualExecution
claim_row device id db = do
  manual ← found (manual_of id db)
  candidate ← found (live_detail_of manual.detail_id db)
  group ← found (group_of candidate.schedule_id db)
  detail ← found (live_detail_of candidate.detail_id db)
  require
      (group.target_device == device
        && detail.schedule_id == group.schedule_id
        && detail.detail_id == manual.detail_id
        && detail.detail_id == candidate.detail_id)
      not_found
  ok manual

-- The claim of the locked row, after an expired claim is released.
unfoldable pub take_claim :
    (manual_id : ℕ)
    → (claim_token : String) → (now : ℕ) → ManualExecution
    → Database
    → Result ExecutionRepositoryError (ClaimRecord × Database)
take_claim id token now manual db =
    let expired = is_expired manual now in
    let freed = if expired then set_manual id "wait" none none now db else db in
    let expires = now + claim_ttl in
    if expired || manual.status == "wait"
    then ok (
      record { manual_id = id; claim_token = token; claim_expires_at = expires; db_now = now },
      set_manual id "processing" (some token) (some expires) now freed,
    )
    else error already_claimed

-- AgentExecutionRepository.claim_manual_run
unfoldable pub claim_manual_run :
    (device_id manual_id : ℕ)
    → (claim_token : String) → (now : ℕ) → Database
    → Result ExecutionRepositoryError (ClaimRecord × Database)
unfolding claim_row take_claim
claim_manual_run device id token now db = do
  manual ← claim_row device id db
  take_claim id token now manual db

abbrev running_key : ℕ → String → ExecutionRunning → Bool
running_key schedule detail r = r.schedule_id == schedule && r.detail_id == detail

-- INSERT ... ON DUPLICATE KEY UPDATE on execution_running
abbrev pub mark_running : StartPayload → List ExecutionRunning → List ExecutionRunning
mark_running p rows = elim (find_by (running_key p.schedule_id p.detail_id) rows) [
  | none ↦
      rows
      ++ record {
        schedule_id = p.schedule_id;
        detail_id = p.detail_id;
        execution_grp_id = p.execution_grp_id;
        attempt = p.attempt;
        start_time = p.started_at;
      }
        ∷ []
  | some _ ↦
      update_where (running_key p.schedule_id p.detail_id)
        (λ r. record r {
          execution_grp_id = p.execution_grp_id;
          attempt = p.attempt;
          start_time = p.started_at;
        })
        rows
]

-- AgentExecutionRepository.start_execution
unfoldable pub start_execution :
    (device_id : ℕ)
    → StartPayload
    → (now : ℕ) → Database
    → Result ExecutionRepositoryError (ℕ × Database)
start_execution device p now db = do
  candidate ← found (live_detail_of p.detail_id db)
  group ← found (group_of candidate.schedule_id db)
  detail ← found (live_detail_of p.detail_id db)
  require
      (group.target_device == device
        && group.schedule_id == p.schedule_id
        && detail.schedule_id == p.schedule_id)
      not_found
  ok (now, record db { running = mark_running p db.running })

-- _same_result
unfoldable pub same_result : ExecutionLog → ResultPayload → Bool
same_result row p =
    row.schedule_id == p.schedule_id
    && option_same row.manual_id p.manual_id
    && row.start_time == p.started_at
    && row.end_time == p.finished_at
    && row.result_code == p.result_code
    && option_same row.result_message p.result_message
    && option_same row.environment_info p.environment_info

-- The unique key uq_execution_log_idempotency.
abbrev pub log_key : (grp detail : String) → (attempt : ℕ) → ExecutionLog → Bool
log_key grp detail attempt row =
    row.execution_grp_id == grp && row.detail_id == detail && row.attempt == attempt

-- AgentExecutionRepository._find_result
abbrev pub find_result : ResultPayload → Database → Option ExecutionLog
find_result p db = find_by (log_key p.execution_grp_id p.detail_id p.attempt) db.log

-- AgentExecutionRepository._clear_running
abbrev pub clear_running : ResultPayload → Database → Database
clear_running p db = record db {
  running = delete_where (running_key p.schedule_id p.detail_id) db.running;
}
