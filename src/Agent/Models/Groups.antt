-- ===== src/Agent/Models/Groups.antt =====
-- The readers of models.py for credentials, schedules, manual runs and snapshots.
use time_weaver.Prelude.{
  ℕ, true, false, Option, none, some, String, List, [], ◌∷◌, ok, error, ◌>>=◌, is_blank,
  if◌then◌else◌,
}
use time_weaver.Agent.Json.{
  Json, Items, Members, null, boolean, text, object, array, nil, item, end, value_at, or_default,
}
use time_weaver.Agent.Models.{
  AccessCredential, ScheduleDetail, ScheduleGroup, ManualExecution, ScheduleSnapshot,
}
use time_weaver.Agent.Models.Parsing.{
  Formats, Read, require_mapping, required_text, text_or_null, at_least, integer, parse_bool,
  parse_uuid, parse_datetime, cron_from_dict, device_from_dict,
}

abbrev optional_int : ℕ → String → Option Json → Read (Option ℕ)
optional_int minimum message none = ok none
optional_int minimum message (some null) = ok none
optional_int minimum message (some value) = do
  n ← at_least minimum message message (some value)
  ok (some n)

abbrev optional_name : Option Json → Read (Option String)
optional_name none = ok none
optional_name (some null) = ok none
optional_name (some (text s)) =
    if is_blank s then error "device_name must be a non-empty string or null" else ok (some s)
optional_name _ = error "device_name must be a non-empty string or null"

-- data.get(name), with None where the name is missing
abbrev value_or_null : String → Members → Json
value_or_null name fields = or_default null (value_at name fields)

-- AccessCredential.from_dict
unfoldable pub credential_from_dict : Formats → Json → Read AccessCredential
unfolding require_mapping required_text parse_datetime
credential_from_dict f value = do
  fields ← require_mapping value "credential"
  device_id ←
      optional_int 1 "device_id must be a positive integer or null" (value_at "device_id" fields)
  device_name ← optional_name (value_at "device_name" fields)
  access_token ← required_text fields "access_token"
  access_expires ←
      parse_datetime f (value_or_null "access_token_expires_at" fields) "access_token_expires_at"
  refresh_token ← required_text fields "refresh_token"
  refresh_expires ←
      parse_datetime f (value_or_null "refresh_token_expires_at" fields) "refresh_token_expires_at"
  ok (record {
    access_token = access_token;
    access_token_expires_at = access_expires;
    refresh_token = refresh_token;
    refresh_token_expires_at = refresh_expires;
    device_id = device_id;
    device_name = device_name;
  })

-- combined.get(name), where combined is the detail updated with its task
abbrev pub combined_at : String → (data_fields task : Members) → Option Json
combined_at name data_fields task = elim (value_at name task) [
  | none ↦ value_at name data_fields
  | some value ↦ some value
]

-- data.get("exec_sequence", data.get("new_sequence"))
abbrev exec_value : Members → Option Json
exec_value fields = elim (value_at "exec_sequence" fields) [
  | none ↦ value_at "new_sequence" fields
  | some value ↦ some value
]

abbrev non_empty : String → String → Option Json → Read String
non_empty name message (some (text s)) = if is_blank s then error message else ok s
non_empty name message _ = error message

-- ScheduleDetail.from_dict
unfoldable pub detail_from_dict : Formats → Json → Read ScheduleDetail
unfolding require_mapping required_text parse_uuid parse_bool cron_from_dict integer
detail_from_dict f value = do
  fields ← require_mapping value "schedule detail"
  task ← require_mapping (or_default (object end) (value_at "task" fields)) "task"
  sequence ← integer fields "sequence" 0
  exec_sequence ←
      at_least 1 "exec_sequence must be an integer >= 1" "exec_sequence must be an integer >= 1"
        (exec_value fields)
  retry_count ← integer fields "retry_count" 0
  house_keep_days ←
      optional_int 0 "house_keep_days must be a non-negative integer or null"
        (combined_at "house_keep_days" fields task)
  detail_id ← parse_uuid f (value_or_null "detail_id" fields) "detail_id" true
  schedule_name ← required_text fields "schedule_name"
  cron ← cron_from_dict (or_default (object end) (value_at "cron" fields))
  is_error_stop ← parse_bool (value_or_null "is_error_stop" fields) "is_error_stop"
  task_type ←
      non_empty "task_type" "task_type must be a non-empty string"
        (combined_at "task_type" fields task)
  command ← text_or_null "command" (combined_at "command" fields task)
  archive_type ← text_or_null "archive_type" (combined_at "archive_type" fields task)
  source_path ← text_or_null "source_path" (combined_at "source_path" fields task)
  error_on_missing_source ←
      parse_bool (or_default (boolean false) (combined_at "error_on_missing_source" fields task))
        "error_on_missing_source"
  destination_path ← text_or_null "destination_path" (combined_at "destination_path" fields task)
  date_format ← text_or_null "date_format" (combined_at "date_format" fields task)
  target_date_format ←
      text_or_null "target_date_format" (combined_at "target_date_format" fields task)
  destination_date_format ←
      text_or_null "destination_date_format" (combined_at "destination_date_format" fields task)
  ok (record {
    detail_id = detail_id;
    schedule_name = schedule_name;
    cron = cron;
    is_error_stop = is_error_stop;
    sequence = sequence;
    exec_sequence = exec_sequence;
    retry_count = retry_count;
    task_type = task_type;
    command = command;
    archive_type = archive_type;
    source_path = source_path;
    error_on_missing_source = error_on_missing_source;
    destination_path = destination_path;
    date_format = date_format;
    target_date_format = target_date_format;
    destination_date_format = destination_date_format;
    house_keep_days = house_keep_days;
  })

-- [read(item) for item in items]
unfoldable pub read_each : {A : Type 0} → (Json → Read A) → Items → Read (List A)
read_each read nil = ok []
read_each read (item value items) = do
  first ← read value
  rest ← read_each read items
  ok (first ∷ rest)

unfoldable pub require_array : Option Json → String → Read Items
require_array (some (array items)) message = ok items
require_array _ message = error message

-- ScheduleGroup.from_dict
unfoldable pub group_from_dict : Formats → Json → Read ScheduleGroup
unfolding require_mapping required_text parse_bool cron_from_dict integer detail_from_dict read_each
    require_array
group_from_dict f value = do
  fields ← require_mapping value "schedule"
  items ← require_array (value_at "details" fields) "details must be an array"
  schedule_id ← integer fields "schedule_id" 1
  name ← required_text fields "name"
  cron ← cron_from_dict (or_default (object end) (value_at "cron" fields))
  is_error_stop ← parse_bool (value_or_null "is_error_stop" fields) "is_error_stop"
  details ← read_each (detail_from_dict f) items
  ok (record {
    schedule_id = schedule_id;
    name = name;
    cron = cron;
    is_error_stop = is_error_stop;
    details = details;
  })

-- ManualExecution.from_dict
unfoldable pub manual_from_dict : Formats → Json → Read ManualExecution
unfolding require_mapping required_text parse_bool integer parse_uuid parse_datetime
manual_from_dict f value = do
  fields ← require_mapping value "manual run"
  manual_id ← integer fields "manual_id" 1
  schedule_id ← integer fields "schedule_id" 1
  detail_id ← parse_uuid f (value_or_null "detail_id" fields) "detail_id" true
  status ← required_text fields "status"
  is_immediate ← parse_bool (value_or_null "is_immediate" fields) "is_immediate"
  schedule_datetime ←
      parse_datetime f (value_or_null "schedule_datetime" fields) "schedule_datetime"
  claimable ← parse_bool (value_or_null "claimable" fields) "claimable"
  ok (record {
    manual_id = manual_id;
    schedule_id = schedule_id;
    detail_id = detail_id;
    status = status;
    is_immediate = is_immediate;
    schedule_datetime = schedule_datetime;
    claimable = claimable;
  })

-- ScheduleSnapshot.from_envelope
unfoldable pub snapshot_from_envelope : Formats → Json → String → Read ScheduleSnapshot
unfolding require_mapping required_text parse_datetime device_from_dict group_from_dict
    manual_from_dict read_each require_array
snapshot_from_envelope f value etag = do
  envelope ← require_mapping value "snapshot response"
  schema_version ← required_text envelope "schema_version"
  fields ← require_mapping (value_or_null "data" envelope) "data"
  groups ← require_array (value_at "schedules" fields) "schedules must be an array"
  manuals ←
      require_array (some (or_default (array nil) (value_at "manual_runs" fields)))
        "manual_runs must be an array"
  revision ← required_text fields "revision"
  server_time ← parse_datetime f (value_or_null "server_time" envelope) "server_time"
  generated_at ← parse_datetime f (value_or_null "generated_at" fields) "generated_at"
  device ← device_from_dict (value_or_null "device" fields)
  schedules ← read_each (group_from_dict f) groups
  manual_runs ← read_each (manual_from_dict f) manuals
  ok (record {
    schema_version = schema_version;
    revision = revision;
    etag = etag;
    server_time = server_time;
    generated_at = generated_at;
    device = device;
    schedules = schedules;
    manual_runs = manual_runs;
  })
