-- ===== src/Agent/Application/Tasks.antt =====
-- execute_task of app.py. The times, what task_run returns and the environment are arguments; the start
-- signal leaves no trace, as its exceptions are only logged.
use time_weaver.Prelude.{
  ℕ, true, Option, none, some, String, [], Dict, get, ℤ, negsuc, Result, ok, error, nat_comparable,
  text_comparable,
}
use time_weaver.Agent.Application.{
  Application, ExecutionStatus, Reply, replied, failed, set_running,
}
use time_weaver.Agent.Envelope.{ResultEnvelope, OutboxItem}
use time_weaver.Agent.Outbox.{ResultOutbox}
use time_weaver.Agent.Outbox.Delivery.{enqueue}

-- None stands for an exception of task_run or of get_environment_info.
pub record TaskRun : Type 0 where
  pub started_at : String
  pub finished_at : String
  pub outcome : Option (ℤ × Option String)
  pub environment : Option (Dict String String)

abbrev code_of : Option (ℤ × Option String) → ℤ
code_of none = negsuc 0
code_of (some (code, message)) = code

abbrev message_of : Option (ℤ × Option String) → Option String
message_of none = some "Unexpected error during task execution."
message_of (some (code, message)) = message

abbrev or_no_facts : Option (Dict String String) → Dict String String
or_no_facts none = []
or_no_facts (some environment) = environment

abbrev pub result_envelope :
    TaskRun → ℕ → ℕ → String → Option ℕ → Option String → String → ResultEnvelope
result_envelope task group sequence detail manual claim context = record {
  execution_grp_id = context;
  schedule_id = group;
  detail_id = detail;
  attempt = 1;
  manual_id = manual;
  claim_token = claim;
  started_at = task.started_at;
  finished_at = task.finished_at;
  result_code = code_of task.outcome;
  result_message = message_of task.outcome;
  environment_info = or_no_facts task.environment;
  sequence = sequence;
}

abbrev pub queued :
    {T : Type 0} → Application T → Result String (ResultOutbox × OutboxItem) → Reply T
queued a (error message) = failed a
queued a (ok (outbox, item)) = replied true (record a { outbox = outbox })

abbrev context_in : Option ExecutionStatus → Option String
context_in none = none
context_in (some status) = some status.context_id

abbrev context_or : Option String → Option String → Option String
context_or none own = own
context_or (some context) own = some context

abbrev run_marked : {T : Type 0} → ℕ → Option ℕ → Application T → Application T
run_marked group none a = set_running group true a
run_marked group (some id) a = a

abbrev pub executed :
    {T : Type 0}
    → TaskRun
    → ℕ
    → ℕ
    → String
    → Option ℕ
    → Option String
    → Option String
    → Application T
    → Reply T
executed task group sequence detail manual claim none a = failed a
executed task group sequence detail manual claim (some context) a =
    queued a (enqueue (result_envelope task group sequence detail manual claim context) a.outbox)

-- execute_task: it raises RuntimeError without a context or a reserved slot.
unfoldable pub execute_task :
    {T : Type 0}
    → TaskRun
    → ℕ
    → ℕ
    → String
    → Option ℕ
    → Option String
    → Option String
    → Application T
    → Reply T
unfolding enqueue
execute_task task group sequence detail manual claim context a =
    executed task group sequence detail manual claim
      (context_or context (context_in (get group a.group_execution_status)))
      (run_marked group manual a)
