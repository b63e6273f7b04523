-- ===== src/Agent/ApiClient/Examples.antt =====
-- The client at small exchanges.
use time_weaver.Prelude.{
  ◌≡◌, refl, none, some, [], ◌∷◌, get, error, pos, contains, arith, text_comparable,
}
use time_weaver.Agent.ApiClient.{
  Response, lost, responds, Readings, AgentApiClient, communication, decode_error, request,
}
use time_weaver.Agent.ApiClient.Attempts.{doubling, request_lost, request_unretried}
use time_weaver.Agent.ApiClient.Endpoints.{start_request, refresh_request}
use time_weaver.Agent.Json.{null}

abbrev client : AgentApiClient
client = record {
  base_url = "https://weaver";
  credential = some "a1";
  agent_version = "2";
  schema_version = "1";
  retries = 2;
  backoff = 1000;
}

abbrev readings : Readings
readings = record {
  float_text = λ s. some (pos 3000);
  float_value = λ s. pos 0;
  repr = λ value. "";
}

abbrev busy : Response
busy = record { status_code = 429; headers = ("Retry-After", "3") ∷ []; json = none }

request_lost_example :
    request readings client (refresh_request "r") (λ n. lost)
    ≡ record { requests = 3; sleeps = 1000 ∷ 2000 ∷ []; result = error communication }
unfolding doubling
request_lost_example =
    request_lost readings client (refresh_request "r") (λ n. lost) (λ k. refl) (omega arith)

request_unretried_example :
    request readings client (start_request "g" null none) (λ n. responds busy)
    ≡ record { requests = 1; sleeps = 3000 ∷ []; result = error communication }
unfolding decode_error contains get
request_unretried_example =
    request_unretried readings client (start_request "g" null none) (λ n. responds busy) busy refl
      (omega arith) refl (omega arith) refl
