-- ===== src/Server/Executions/Repeats.antt =====
-- What a report gets whose execution, detail and attempt have been reported before.
use time_weaver.Prelude.{
  ℕ, ◌≡◌, Bool, true, ◌&&◌, some, [], ◌==◌, text_comparable, nat_comparable, int_comparable,
  option_same,
}
use time_weaver.Server.Database.{ExecutionLog, Database}
use time_weaver.Server.Executions.{ResultRecord, ResultPayload, find_result, same_result}
use time_weaver.Server.Executions.Results.{duplicate}
use time_weaver.Server.Executions.Outcome.{Outcome}

-- Two payloads that report the same.
abbrev pub same_payload : ResultPayload → ResultPayload → Bool
same_payload p q =
    p.schedule_id == q.schedule_id
    && option_same p.manual_id q.manual_id
    && p.started_at == q.started_at
    && p.finished_at == q.finished_at
    && p.result_code == q.result_code
    && option_same p.result_message q.result_message
    && option_same p.environment_info q.environment_info

-- Two payloads about the same attempt of the same detail in the same execution.
pub record IsSameRun (p q : ResultPayload) : Type 0 where
  pub execution : q.execution_grp_id ≡ p.execution_grp_id
  pub detail : q.detail_id ≡ p.detail_id
  pub attempt : q.attempt ≡ p.attempt
  pub schedule : q.schedule_id ≡ p.schedule_id

-- A row of the log that stands for a report.
record Stands (p : ResultPayload) (id : ℕ) (db : Database) : Type 0 where
  row : ExecutionLog
  stored : find_result p db ≡ some row
  named : row.execution_id ≡ id
  same : (q : ResultPayload) → same_result row q ≡ same_payload p q

abbrev pub repetition : (execution_id now : ℕ) → ResultRecord
repetition id now = record {
  execution_id = id;
  duplicate = true;
  applied_transitions = [];
  db_now = now;
}
