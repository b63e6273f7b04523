-- ===== src/Agent/ApiClient/Endpoints.antt =====
-- The operations of AgentApiClient: their requests, the headers of these, and what they make of the
-- results. quote and the URL's parts are taken as they are.
use time_weaver.Prelude.{
  ℕ, Bool, true, false, Option, none, some, String, [], ◌∷◌, Dict, get, put, ◌==◌, ◌≡◌, refl,
  if◌then◌else◌, str, text_append, text_comparable, Result, ok, error,
}
use time_weaver.Agent.ApiClient.{
  AgentApiClient, Request, Returned, not_modified, envelope, data_only, etag_of,
}
use time_weaver.Agent.ApiErrors.{Exception, malformed}
use time_weaver.Agent.Json.{Json, Members, null, text, object, end, member}
use time_weaver.Agent.Models.{AccessCredential}
use time_weaver.Agent.Models.Groups.{credential_from_dict}
use time_weaver.Agent.Models.Parsing.{Formats, Read}

abbrev or_credential : Option String → Bool → Option String → Option String
or_credential (some token) use_default credential = some token
or_credential none use_default credential = if use_default then credential else none

-- The token of a request: its own, or else the client's where the request may use that.
abbrev pub token_of : AgentApiClient → Request → Option String
token_of c q = or_credential q.access_token q.use_default_credential c.credential

abbrev with_token : Option String → Dict String String → Dict String String
with_token none headers = headers
with_token (some token) headers =
    if token == "" then headers else put "Authorization" (text_append "Bearer " token) headers

abbrev with_contract : AgentApiClient → Bool → Dict String String → Dict String String
with_contract c include headers =
    if include
    then put "X-TW-Schema-Version" c.schema_version
        (put "X-TW-Agent-Version" c.agent_version headers)
    else headers

-- headers.update(extra)
unfoldable pub updated : Dict String String → Dict String String → Dict String String
updated headers [] = headers
updated headers ((name, value) ∷ extra) = updated (put name value headers) extra

-- The headers that _request sends.
unfoldable pub headers_of : AgentApiClient → Request → Dict String String
unfolding updated put
headers_of c q =
    updated
      (with_contract c q.include_contract_headers
        (with_token (token_of c q) (("Accept", "application/json") ∷ [])))
      q.extra_headers

abbrev plain : String → String → Option String → Option Json → Request
plain method path access_token body = record {
  method = method;
  path = path;
  access_token = access_token;
  include_contract_headers = true;
  extra_headers = [];
  allow_not_modified = false;
  return_envelope = false;
  use_default_credential = true;
  request_retries = none;
  body = body;
}

abbrev pub enroll_request : AgentApiClient → String → String → Request
enroll_request c token device =
    record (plain "POST" "/api/agent/v1/enroll" none (
      some (
        object (
          member "enrollment_token" (text token) (
            member "device_name" (text device)
              (member "agent_version" (text c.agent_version) end)))))) {
                use_default_credential = false;
              }

abbrev pub refresh_request : String → Request
refresh_request token =
    record (plain "POST" "/api/agent/v1/token" none
      (some (object (member "refresh_token" (text token) end)))) {
        include_contract_headers = false;
        use_default_credential = false;
      }

abbrev revision_value : Option String → Json
revision_value none = null
revision_value (some revision) = text revision

abbrev pub heartbeat_request : String → String → Option String → Option String → Request
heartbeat_request version state revision access_token =
    plain "POST" "/api/agent/v1/heartbeat" access_token (
      some (
        object (
          member "agent_version" (text version) (
            member "applied_revision" (revision_value revision)
              (member "state" (text state) end)))))

abbrev if_none_match : Option String → Dict String String
if_none_match none = []
if_none_match (some etag) = if etag == "" then [] else ("If-None-Match", etag) ∷ []

abbrev pub snapshot_request : Option String → Option String → Request
snapshot_request etag access_token =
    record (plain "GET" "/api/agent/v1/snapshot" access_token none) {
      extra_headers = if_none_match etag;
      allow_not_modified = true;
      return_envelope = true;
    }

abbrev pub claim_request : ℕ → Option String → Request
claim_request id access_token =
    plain "POST" (text_append "/api/agent/v1/manual-runs/" (text_append (str id) "/claim"))
      access_token none

-- The path of an execution's group, whose id goes through `quote`.
abbrev execution_path : String → String → String
execution_path quoted last = text_append "/api/agent/v1/executions/" (text_append quoted last)

abbrev pub start_request : String → Json → Option String → Request
start_request quoted start access_token =
    record (plain "POST" (execution_path quoted "/start") access_token (some start)) {
      request_retries = some 0;
    }

abbrev pub results_request : String → Json → String → Option String → Request
results_request quoted results key access_token =
    record (plain "POST" (execution_path quoted "/results") access_token (some results)) {
      extra_headers = ("Idempotency-Key", key) ∷ [];
    }

abbrev keyed : Option String → Dict String String
keyed none = []
keyed (some key) = if key == "" then [] else ("Idempotency-Key", key) ∷ []

abbrev pub event_request : Json → Option String → Option String → Request
event_request event key access_token =
    record (plain "POST" "/api/agent/v1/events" access_token (some event)) {
      extra_headers = keyed key;
    }

-- The check of send_heartbeat, claim_manual_execution and the reports that the data is an object.
unfoldable pub mapping_of : Result Exception Returned → Result Exception Members
mapping_of (error exc) = error exc
mapping_of (ok (data_only (object fields))) = ok fields
mapping_of (ok _) = error (Exception.api malformed)

abbrev parsed : Read AccessCredential → Result Exception AccessCredential
parsed (error message) = error (Exception.api malformed)
parsed (ok credential) = ok credential

-- AgentApiClient._credential_from_data, in enroll and refresh_access_token
unfoldable pub credential_of :
    Formats → Result Exception Returned → Result Exception AccessCredential
unfolding credential_from_dict
credential_of f (error exc) = error exc
credential_of f (ok (data_only value)) = parsed (credential_from_dict f value)
credential_of f (ok _) = error (Exception.api malformed)

-- A snapshot that has not changed, or an envelope with its tag.
pub data Snapshot : Type 0 where
  unchanged : (etag : Option String) → Snapshot
  changed : Members → (etag : String) → Snapshot

abbrev tagged : Members → Option String → Result Exception Snapshot
tagged fields none = error (Exception.api malformed)
tagged fields (some etag) =
    if etag == "" then error (Exception.api malformed) else ok (changed fields etag)

-- The end of get_schedule_snapshot.
unfoldable pub snapshot_of : Result Exception Returned → Result Exception Snapshot
snapshot_of (error exc) = error exc
snapshot_of (ok (not_modified etag)) = ok (unchanged etag)
snapshot_of (ok (envelope fields headers)) = tagged fields (etag_of headers)
snapshot_of (ok (data_only value)) = error (Exception.api malformed)

-- Neither an enrollment nor a refresh sends the access token that the client holds.
pub authorization_absent :
    (c : AgentApiClient) (token device : String)
    → (get "Authorization" (headers_of c (enroll_request c token device)) ≡ none)
      × (get "Authorization" (headers_of c (refresh_request token)) ≡ none)
unfolding headers_of get
authorization_absent c token device = (refl, refl)
