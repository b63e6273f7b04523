-- ===== src/Server/ExecutionService/Delivered.antt =====
-- The report of a result from the agent's outbox to the server's answer and back.
use time_weaver.Prelude.{
  ℕ, ◌≡◌, ◌≤◌, refl, Bool, true, false, Option, some, String, List, ◌==◌, if◌then◌else◌,
  text_comparable, nat_comparable, error, arith, eq_iff, contains,
}
use time_weaver.Agent.ApiErrors.{Exception, protocol_error}
use time_weaver.Agent.Envelope.{ResultEnvelope, idempotency_key}
use time_weaver.Agent.Outbox.{ResultOutbox}
use time_weaver.Agent.Outbox.Sending.{Action, classify_failure}
use time_weaver.Agent.Outbox.Policy.{classify_failure-protocol_error}
use time_weaver.Server.Database.{ExecutionLog, Database}
use time_weaver.Server.Executions.{
  ExecutionRepositoryError, not_found, already_claimed, invalid_request, unavailable, claim_expired,
  ResultPayload,
}
use time_weaver.Server.Executions.Results.{accept_result}
use time_weaver.Server.ExecutionService.{
  service_accept_result, service_error, with_service_error, expected_key, request_body_max,
  inconsistent,
}

-- The payload reports the attempt that the envelope is about.
pub record Reports (e : ResultEnvelope) (p : ResultPayload) : Type 0 where
  pub execution : p.execution_grp_id ≡ e.execution_grp_id
  pub detail : p.detail_id ≡ e.detail_id
  pub attempt : p.attempt ≡ e.attempt

own_key :
    (e : ResultEnvelope) (p : ResultPayload) → Reports e p → expected_key p ≡ idempotency_key e
unfolding expected_key idempotency_key
own_key e p h = rw (h.execution, h.detail, h.attempt) refl

-- The server takes a report whose key is the one that the outbox gave its envelope, unless the request
-- is too large: it answers as the repository does. Under any other key it refuses the report.
pub service_accept_result-idempotency_key :
    (e : ResultEnvelope) (p : ResultPayload) (key : String) (racing : List ExecutionLog)
    (device serialized_size now : ℕ) (db : Database)
    → Reports e p
    → serialized_size ≤ request_body_max
    → service_accept_result racing device e.execution_grp_id (some key) serialized_size p now db ≡ (
        if key == idempotency_key e
        then with_service_error (accept_result racing device p now db)
        else error inconsistent)
unfolding service_accept_result
service_accept_result-idempotency_key e p key racing device serialized_size now db h fits =
    rw (own_key e p h, h.execution)
      (ground (arith, fits, eq_iff e.execution_grp_id e.execution_grp_id))

abbrev pub is_unavailable : ExecutionRepositoryError → Bool
is_unavailable unavailable = true
is_unavailable _ = false

-- The outbox keeps a result to report it again exactly if the repository was unavailable; any other
-- error of the repository removes it.
pub classify_failure-service_error :
    (e : ExecutionRepositoryError) (retry_after : Option ℕ) (o : ResultOutbox)
    → (classify_failure (Exception.api (protocol_error (service_error e).code retry_after)) o).0
      ≡ (if is_unavailable e then Action.retry else Action.remove)
unfolding service_error contains
classify_failure-service_error not_found r o = classify_failure-protocol_error "not_found" r o
classify_failure-service_error already_claimed r o =
    classify_failure-protocol_error "already_claimed" r o
classify_failure-service_error invalid_request r o =
    classify_failure-protocol_error "invalid_request" r o
classify_failure-service_error unavailable r o = classify_failure-protocol_error "unavailable" r o
classify_failure-service_error (claim_expired detail) r o =
    classify_failure-protocol_error "claim_expired" r o
