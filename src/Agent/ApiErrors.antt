-- ===== src/Agent/ApiErrors.antt =====
-- The exceptions of agent/services/time_weaver/api_client.py, and the mapping of a protocol error
-- code to one of them.
use time_weaver.Prelude.{
  ℕ, Bool, true, false, Option, none, String, [], ◌∷◌, ◌==◌, if◌then◌else◌, text_comparable,
  contains, leb, nat_comparable,
}

-- The classes, each below ApiClientError.
pub data ErrorClass : Type 0 where
  api_client communication authentication device_inactive enrollment_token_invalid : ErrorClass
  client_rejected transient_server rate_limit malformed_response schema_mismatch : ErrorClass

-- A delay is in milliseconds.
pub record ApiClientError : Type 0 where
  pub class : ErrorClass
  pub code : String
  pub retry_after : Option ℕ

-- What a call may raise: an API error, or another exception, by the name of its class.
pub data Exception : Type 0 where
  api : ApiClientError → Exception
  other : String → Exception

-- `isinstance` against each class that the callers test.
abbrev pub is_authentication : ErrorClass → Bool
is_authentication ErrorClass.authentication = true
is_authentication ErrorClass.device_inactive = true
is_authentication ErrorClass.enrollment_token_invalid = true
is_authentication _ = false

abbrev pub is_device_inactive : ErrorClass → Bool
is_device_inactive ErrorClass.device_inactive = true
is_device_inactive _ = false

abbrev pub is_client_rejected : ErrorClass → Bool
is_client_rejected ErrorClass.client_rejected = true
is_client_rejected ErrorClass.schema_mismatch = true
is_client_rejected _ = false

abbrev pub is_transient_server : ErrorClass → Bool
is_transient_server ErrorClass.transient_server = true
is_transient_server ErrorClass.rate_limit = true
is_transient_server _ = false

abbrev pub is_communication : ErrorClass → Bool
is_communication ErrorClass.communication = true
is_communication _ = false

abbrev pub is_malformed_response : ErrorClass → Bool
is_malformed_response ErrorClass.malformed_response = true
is_malformed_response _ = false

abbrev pub malformed : ApiClientError
malformed = record {
  class = ErrorClass.malformed_response;
  code = "malformed_response";
  retry_after = none;
}

-- AgentApiClient._raise_protocol_error: the exception that a code is raised as. The message is not
-- modelled.
unfoldable pub protocol_error : String → Option ℕ → ApiClientError
protocol_error code retry_after =
    if contains code ("invalid_token" ∷ "token_expired" ∷ [])
    then record { class = ErrorClass.authentication; code = code; retry_after = none }
    else if contains code ("device_inactive" ∷ "device_revoked" ∷ [])
    then record { class = ErrorClass.device_inactive; code = code; retry_after = none }
    else if code == "enrollment_token_invalid"
    then record { class = ErrorClass.enrollment_token_invalid; code = code; retry_after = none }
    else if code == "schema_mismatch"
    then record { class = ErrorClass.schema_mismatch; code = code; retry_after = none }
    else if code == "rate_limited"
    then record { class = ErrorClass.rate_limit; code = code; retry_after = retry_after }
    else if contains code ("server_error" ∷ "unavailable" ∷ [])
    then record { class = ErrorClass.transient_server; code = code; retry_after = retry_after }
    else record { class = ErrorClass.client_rejected; code = code; retry_after = retry_after }

-- AgentApiClient._fallback_error_code
unfoldable pub fallback_error_code : ℕ → String
fallback_error_code status =
    if status == 429
    then "rate_limited"
    else if leb 500 status
    then "server_error"
    else if status == 401
    then "invalid_token"
    else if status == 403
    then "device_inactive"
    else if contains status (400 ∷ 422 ∷ [])
    then "invalid_request"
    else "invalid_request"
