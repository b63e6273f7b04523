-- ===== src/Server/ExecutionService/Examples.antt =====
-- Reports between the agent and the server: instances.
use time_weaver.Prelude.{
  ◌≡◌, refl, none, some, [], ◌==◌, if◌then◌else◌, pos, arith, text_comparable, error,
}
use time_weaver.Agent.ApiErrors.{Exception, protocol_error}
use time_weaver.Agent.Envelope.{ResultEnvelope, idempotency_key}
use time_weaver.Agent.Outbox.{ResultOutbox, fresh}
use time_weaver.Agent.Outbox.Sending.{Action, classify_failure}
use time_weaver.Server.Database.{Database}
use time_weaver.Server.Executions.{ResultPayload, unavailable}
use time_weaver.Server.Executions.Results.{accept_result}
use time_weaver.Server.ExecutionService.{
  service_accept_result, service_error, with_service_error, inconsistent,
}
use time_weaver.Server.ExecutionService.Delivered.{
  is_unavailable, service_accept_result-idempotency_key, classify_failure-service_error,
}

abbrev sent : ResultEnvelope
sent = record {
  execution_grp_id = "e1";
  schedule_id = 7;
  detail_id = "d1";
  attempt = 2;
  manual_id = none;
  claim_token = none;
  started_at = "2024-01-01T00:00:00Z";
  finished_at = "2024-01-01T00:00:01Z";
  result_code = pos 0;
  result_message = none;
  environment_info = [];
  sequence = 1;
}

abbrev received : ResultPayload
received = record {
  execution_grp_id = "e1";
  schedule_id = 7;
  detail_id = "d1";
  attempt = 2;
  manual_id = none;
  claim_token = none;
  started_at = 100;
  finished_at = 101;
  result_code = pos 0;
  result_message = none;
  environment_info = none;
}

abbrev empty : Database
empty = record {
  groups = [];
  details = [];
  manuals = [];
  log = [];
  running = [];
  events = [];
  next_id = 1;
}

service_accept_result-idempotency_key_example :
    service_accept_result [] 3 "e1" (some "e1:d1:2") 400 received 200 empty ≡ (
      if "e1:d1:2" == idempotency_key sent
      then with_service_error (accept_result [] 3 received 200 empty)
      else error inconsistent)
service_accept_result-idempotency_key_example =
    service_accept_result-idempotency_key sent received "e1:d1:2" [] 3 400 200 empty
      (record { execution = refl; detail = refl; attempt = refl }) (omega arith)

abbrev outbox : ResultOutbox
outbox =
    fresh
      (record {
        capacity = 3;
        high_watermark = 2;
        low_watermark = 1;
        sender_workers = 1;
        retry = record {
          initial_delay = 1000;
          multiplier = 2000;
          max_delay = 60000;
          jitter_ratio = 200;
        };
      })
      none

classify_failure-service_error_example :
    (classify_failure
      (Exception.api (protocol_error (service_error unavailable).code none))
      outbox).0
    ≡ (if is_unavailable unavailable then Action.retry else Action.remove)
classify_failure-service_error_example = classify_failure-service_error unavailable none outbox
