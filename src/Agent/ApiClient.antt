-- ===== src/Agent/ApiClient.antt =====
-- AgentApiClient._request of agent/services/time_weaver/api_client.py and its decoding. The transport is
-- an argument: the outcome of each request by its number. Delays are in milliseconds.
pub mod Endpoints
pub mod Attempts
mod Examples
use time_weaver.Prelude.{
  ℕ, zero, suc, ◌+◌, ◌*◌, ◌^◌, Bool, true, false, not, ◌&&◌, ◌||◌, Option, none, some, String, List,
  [], ◌∷◌, ◌++◌, ℤ, pos, negsuc, Dict, get, ◌==◌, if◌then◌else◌, ltb, leb, contains, is_none,
  is_blank, str, text_append, text_comparable, nat_comparable, Result, ok, error,
}
use time_weaver.Agent.ApiErrors.{
  ApiClientError, ErrorClass, Exception, malformed, protocol_error, fallback_error_code,
}
use time_weaver.Agent.Json.{
  Json, Items, Members, null, boolean, number, real, text, array, object, value_at,
}
use time_weaver.Agent.Models.Parsing.{int_text}

-- A response: `json` is what its body decodes to, none where that raises.
pub record Response : Type 0 where
  pub status_code : ℕ
  pub headers : Dict String String
  pub json : Option Json

-- What a request of the transport comes to; `lost` is a timeout or a connection error.
pub data Attempt : Type 0 where
  lost : Attempt
  raises : (name : String) → Attempt
  responds : Response → Attempt

-- Python's readings that a text of the server goes through: `float` of a text in milliseconds, of a
-- JSON float likewise, and `str` of a JSON value that is no text, number, boolean or null.
pub record Readings : Type 0 where
  pub float_text : String → Option ℤ
  pub float_value : String → ℤ
  pub repr : Json → String

-- The fields of AgentApiClient that requests go by.
pub record AgentApiClient : Type 0 where
  pub base_url : String
  pub credential : Option String
  pub agent_version : String
  pub schema_version : String
  pub retries : ℕ
  pub backoff : ℕ

-- AgentApiClient.set_access_token
abbrev pub set_access_token : Option String → AgentApiClient → AgentApiClient
set_access_token token c = record c { credential = token }

-- The arguments of _request.
pub record Request : Type 0 where
  pub method : String
  pub path : String
  pub access_token : Option String
  pub include_contract_headers : Bool
  pub extra_headers : Dict String String
  pub allow_not_modified : Bool
  pub return_envelope : Bool
  pub use_default_credential : Bool
  pub request_retries : Option ℕ
  pub body : Option Json

-- What _request returns.
pub data Returned : Type 0 where
  not_modified : (etag : Option String) → Returned
  envelope : Members → Dict String String → Returned
  data_only : Json → Returned

-- The requests sent, what the client slept between them, and the result.
pub record Exchange : Type 0 where
  pub requests : ℕ
  pub sleeps : List ℕ
  pub result : Result Exception Returned

abbrev pub communication : Exception
communication =
    Exception.api
      (record { class = ErrorClass.communication; code = "unavailable"; retry_after = none })

abbrev pub schema_mismatch : Exception
schema_mismatch =
    Exception.api
      (record { class = ErrorClass.schema_mismatch; code = "schema_mismatch"; retry_after = none })

-- a or b, for texts that may be missing.
abbrev or_text : Option String → Option String → Option String
or_text none b = b
or_text (some a) b = if a == "" then b else some a

-- headers.get("ETag") or headers.get("etag")
abbrev pub etag_of : Dict String String → Option String
etag_of headers = or_text (get "ETag" headers) (get "etag" headers)

abbrev not_negative : Option ℤ → Option ℕ
not_negative none = none
not_negative (some (pos n)) = some n
not_negative (some (negsuc n)) = none

abbrev read_delay : Readings → Option String → Option ℕ
read_delay p none = none
read_delay p (some value) = not_negative (p.float_text value)

-- AgentApiClient._retry_after
unfoldable pub retry_after_of : Readings → Dict String String → Option ℕ
retry_after_of p headers =
    read_delay p (or_text (get "Retry-After" headers) (get "retry-after" headers))

-- str of a JSON value, and of a missing one
abbrev pub text_of : Readings → Option Json → String
text_of p none = "None"
text_of p (some null) = "None"
text_of p (some (boolean b)) = if b then "True" else "False"
text_of p (some (number n)) = int_text n
text_of p (some (text s)) = s
text_of p (some value) = p.repr value

abbrev is_text : Option Json → Bool
is_text (some (text s)) = true
is_text _ = false

abbrev pub decoded : Readings → String → Option Json → Result Exception Members
decoded p version (some (object payload)) =
    if not (text_of p (value_at "schema_version" payload) == version)
    then error schema_mismatch
    else if is_none (value_at "data" payload)
    then error (Exception.api malformed)
    else if not (is_text (value_at "server_time" payload))
    then error (Exception.api malformed)
    else ok payload
decoded p version _ = error (Exception.api malformed)

-- AgentApiClient._decode_envelope
unfoldable pub decode_envelope : Readings → String → Response → Result Exception Members
unfolding value_at
decode_envelope p version r = decoded p version r.json

abbrev floor_zero : ℤ → ℕ
floor_zero (pos n) = n
floor_zero (negsuc n) = 0

abbrev seconds : ℤ → ℕ
seconds (pos n) = n * 1000
seconds (negsuc n) = 0

abbrev body_delay : Readings → Option ℕ → Option Json → Option ℕ
body_delay p (some delay) body = some delay
body_delay p none (some (number n)) = some (seconds n)
body_delay p none (some (real s)) = some (floor_zero (p.float_value s))
body_delay p none _ = none

-- The error object of a payload: its `error`, or its `detail`, if that is one.
abbrev error_in : Option Json → Option Json → Option Members
error_in (some (object fields)) detail = some fields
error_in _ (some (object fields)) = some fields
error_in _ _ = none

abbrev coded : Readings → String → Option ℕ → Members → Option Json → String × Option ℕ
coded p fallback delay fields (some (text code)) =
    (code, body_delay p delay (value_at "retry_after" fields))
coded p fallback delay fields _ = (fallback, delay)

abbrev error_fields : Readings → String → Option ℕ → Option Members → String × Option ℕ
error_fields p fallback delay none = (fallback, delay)
error_fields p fallback delay (some fields) = coded p fallback delay fields (value_at "code" fields)

abbrev error_body : Readings → String → Option ℕ → Option Json → String × Option ℕ
error_body p fallback delay (some (object payload)) =
    error_fields p fallback delay (error_in (value_at "error" payload) (value_at "detail" payload))
error_body p fallback delay _ = (fallback, delay)

-- AgentApiClient._decode_error: the code and the delay; the details only go into messages.
unfoldable pub decode_error : Readings → Response → String × Option ℕ
unfolding value_at retry_after_of fallback_error_code
decode_error p r =
    error_body p (fallback_error_code r.status_code) (retry_after_of p r.headers) r.json

abbrev pub is_retryable : String → Bool
is_retryable code = contains code ("rate_limited" ∷ "server_error" ∷ "unavailable" ∷ [])

abbrev the_data : Option Json → Json
the_data none = null
the_data (some value) = value

abbrev returned_of : Request → Response → Result Exception Members → Result Exception Returned
returned_of q r (error exc) = error exc
returned_of q r (ok payload) = ok (
    if q.return_envelope
    then envelope payload r.headers
    else data_only (the_data (value_at "data" payload)))

-- What a response comes to: a result, or a delay before the next request where its code allows one.
pub data Verdict : Type 0 where
  ends : Result Exception Returned → Verdict
  again : (delay : ℕ) → Verdict

abbrev delay_or : Option ℕ → ℕ → ℕ
delay_or none backoff = backoff
delay_or (some delay) backoff = delay

-- self._backoff * (2 ** attempt); a product beyond the floats is infinite in the source.
abbrev pub backoff_at : AgentApiClient → ℕ → ℕ
backoff_at c attempt = c.backoff * 2 ^ attempt

-- From there on the power, which is an int, is too large to be made a float.
abbrev pub too_large : ℕ → Bool
too_large attempt = leb 1024 attempt

abbrev pub overflow : Exception
overflow = Exception.other "OverflowError"

abbrev pub refused : AgentApiClient → ℕ → String × Option ℕ → Verdict
refused c attempt (code, delay) =
    if is_retryable code && ltb attempt c.retries
    then (if is_none delay && too_large attempt
        then ends (error overflow)
        else again (delay_or delay (backoff_at c attempt)))
    else ends (error (Exception.api (protocol_error code delay)))

-- The part of the loop's body after a response. As in the source, the bound on the retries of an error
-- code is the client's, not the request's.
unfoldable pub judge : Readings → AgentApiClient → Request → ℕ → Response → Verdict
unfolding decode_envelope decode_error protocol_error
judge p c q attempt r =
    if r.status_code == 304 && q.allow_not_modified
    then ends (ok (not_modified (etag_of r.headers)))
    else if leb 200 r.status_code && leb r.status_code 299
    then ends (returned_of q r (decode_envelope p c.schema_version r))
    else refused c attempt (decode_error p r)

-- retries = self._retries if request_retries is None else request_retries
abbrev pub retries_of : AgentApiClient → Request → ℕ
retries_of c q = elim q.request_retries [ none ↦ c.retries | some n ↦ n ]

abbrev pub sent_one : Exchange → Exchange
sent_one x = record x { requests = suc x.requests }

abbrev pub slept : ℕ → Exchange → Exchange
slept delay x = record x { requests = suc x.requests; sleeps = delay ∷ x.sleeps }

abbrev pub finished : Result Exception Returned → Exchange
finished result = record { requests = 1; sleeps = []; result = result }

abbrev pub after_verdict : Verdict → Exchange → Exchange
after_verdict (ends result) rest = finished result
after_verdict (again delay) rest = slept delay rest

abbrev pub after_attempt : Readings → AgentApiClient → Request → ℕ → Attempt → Exchange → Exchange
after_attempt p c q attempt lost rest =
    if ltb attempt (retries_of c q)
    then (if too_large attempt
        then finished (error overflow)
        else slept (backoff_at c attempt) rest)
    else finished (error communication)
after_attempt p c q attempt (raises name) rest = finished (error (Exception.other name))
after_attempt p c q attempt (responds r) rest = after_verdict (judge p c q attempt r) rest

-- The loop of _request with `left` rounds left, from round `attempt` on.
unfoldable pub attempts :
    Readings → AgentApiClient → Request → (ℕ → Attempt) → (left attempt : ℕ) → Exchange
unfolding judge
attempts p c q transport zero attempt = record {
  requests = 0;
  sleeps = [];
  result = error communication;
}
attempts p c q transport (suc left) attempt =
    let rest = attempts p c q transport left (suc attempt) in
    after_attempt p c q attempt (transport attempt) rest

-- AgentApiClient._request
unfoldable pub request : Readings → AgentApiClient → Request → (ℕ → Attempt) → Exchange
unfolding attempts
request p c q transport = attempts p c q transport (suc (retries_of c q)) 0
