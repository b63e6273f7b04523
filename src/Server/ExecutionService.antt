-- ===== src/Server/ExecutionService.antt =====
-- AgentExecutionService of server/services/agent/execution_service.py: its own checks, and the errors
-- that it answers with. The size of a request's JSON is an argument; UUIDs are their texts.
pub mod Delivered
mod Examples
use time_weaver.Prelude.{
  ℕ, Bool, true, false, ◌&&◌, ◌||◌, not, Option, none, some, String, List, [], ◌∷◌, ◌==◌,
  if◌then◌else◌, ltb, text_comparable, nat_comparable, option_same, Result, ok, error, str,
  text_append,
}
use time_weaver.Server.Database.{ExecutionLog, Database}
use time_weaver.Server.Executions.{
  ExecutionRepositoryError, not_found, already_claimed, invalid_request, unavailable, claim_expired,
  StartPayload, ResultPayload, ResultRecord, start_execution,
}
use time_weaver.Server.Executions.Results.{accept_result}

pub record AgentExecutionError : Type 0 where
  pub status_code : ℕ
  pub code : String

abbrev pub request_body_max : ℕ
request_body_max = 1048576

-- AgentExecutionService._raise_repository_error, without the messages.
unfoldable pub service_error : ExecutionRepositoryError → AgentExecutionError
service_error not_found = record { status_code = 404; code = "not_found" }
service_error already_claimed = record { status_code = 409; code = "already_claimed" }
service_error (claim_expired detail) = record { status_code = 410; code = "claim_expired" }
service_error invalid_request = record { status_code = 422; code = "invalid_request" }
service_error unavailable = record { status_code = 503; code = "unavailable" }

abbrev pub inconsistent : AgentExecutionError
inconsistent = record { status_code = 422; code = "invalid_request" }

abbrev pub with_service_error {ℓ} :
    {A : Type ℓ} → Result ExecutionRepositoryError A → Result AgentExecutionError A
with_service_error (ok a) = ok a
with_service_error (error e) = error (service_error e)

-- AgentExecutionService.start_execution
unfoldable pub service_start_execution :
    (device_id : ℕ)
    → (path_execution_grp_id : String) → (serialized_size : ℕ) → StartPayload
    → (now : ℕ) → Database
    → Result AgentExecutionError (ℕ × Database)
unfolding start_execution service_error
service_start_execution device path serialized_size p now db =
    if not (path == p.execution_grp_id) || ltb request_body_max serialized_size
    then error inconsistent
    else with_service_error (start_execution device p now db)

-- f"{request.execution_grp_id}:{request.detail_id}:{request.attempt}"
unfoldable pub expected_key : ResultPayload → String
expected_key p =
    text_append p.execution_grp_id
      (text_append ":" (text_append p.detail_id (text_append ":" (str p.attempt))))

-- AgentExecutionService.accept_result
unfoldable pub service_accept_result :
    (racing : List ExecutionLog)
    → (device_id : ℕ) → (path_execution_grp_id : String) → (idempotency_key : Option String)
    → (serialized_size : ℕ) → ResultPayload
    → (now : ℕ) → Database
    → Result AgentExecutionError (ResultRecord × Database)
unfolding accept_result service_error expected_key
service_accept_result racing device path key serialized_size p now db =
    if not (path == p.execution_grp_id)
      || not (option_same key (some (expected_key p)))
      || ltb request_body_max serialized_size
    then error inconsistent
    else with_service_error (accept_result racing device p now db)
