-- ===== src/Agent/Models/Parsing.antt =====
-- The readers of models.py. What they raise is a ModelValidationError, here its message. The readers
-- of datetime and uuid are parameters.
use time_weaver.Prelude.{
  ℕ, suc, Bool, true, false, not, ◌||◌, Option, none, some, String, text_append, ℤ, pos, negsuc,
  ◌==◌, if◌then◌else◌, ltb, nat_comparable, text_comparable, Result, ok, error, ◌>>=◌, is_blank,
  strip, reads_as, has_control, utc_offset, str,
}
use time_weaver.Agent.Json.{
  Json, Members, null, boolean, number, text, object, value_at, or_default,
}
use time_weaver.Agent.Models.{CronFields, Device}

-- What datetime.fromisoformat returns: a time without a timezone, or one with.
pub data Moment : Type 0 where
  naive : Moment
  zoned : ℕ → Moment

-- datetime.fromisoformat and str(UUID(value)); none is their ValueError.
pub record Formats : Type 0 where
  pub fromisoformat : String → Option Moment
  pub canonical_uuid : String → Option String

abbrev pub Read : Type 0 → Type 0
Read A = Result String A

-- require_mapping
unfoldable pub require_mapping : Json → String → Read Members
require_mapping (object fields) name = ok fields
require_mapping _ name = error (text_append name " must be an object")

abbrev text_value : String → Option Json → Read String
text_value name (some (text s)) =
    if is_blank s then error (text_append name " must be a non-empty string") else ok s
text_value name _ = error (text_append name " must be a non-empty string")

-- required_text
unfoldable pub required_text : Members → String → Read String
required_text fields name = text_value name (value_at name fields)

abbrev pub text_or_null : String → Option Json → Read (Option String)
text_or_null name none = ok none
text_or_null name (some null) = ok none
text_or_null name (some (text s)) = ok (some s)
text_or_null name _ = error (text_append name " must be a string or null")

-- optional_text
unfoldable pub optional_text : Members → String → Read (Option String)
optional_text fields name = text_or_null name (value_at name fields)

abbrev pub at_least : ℕ → String → String → Option Json → Read ℕ
at_least minimum wrong_type too_small (some (number (pos n))) =
    if ltb n minimum then error too_small else ok n
at_least minimum wrong_type too_small (some (number (negsuc n))) = error too_small
at_least minimum wrong_type too_small _ = error wrong_type

-- integer, which each caller gives a minimum that is not negative.
unfoldable pub integer : Members → String → ℕ → Read ℕ
integer fields name minimum =
    at_least minimum (text_append name " must be an integer")
      (text_append name (text_append " must be >= " (str minimum))) (value_at name fields)

abbrev bool_error : String → String
bool_error name = text_append name " must be a boolean"

-- parse_bool
unfoldable pub parse_bool : Json → String → Read Bool
parse_bool (boolean b) name = ok b
parse_bool (number (pos n)) name =
    if n == 0 then ok false else if n == 1 then ok true else error (bool_error name)
parse_bool (text s) name =
    if reads_as (strip s) "true" || reads_as (strip s) "1"
    then ok true
    else if reads_as (strip s) "false" || reads_as (strip s) "0"
    then ok false
    else error (bool_error name)
parse_bool _ name = error (bool_error name)

abbrev the_uuid : Bool → String → String → Option String → Read String
the_uuid require_lowercase name source none = error (text_append name " must be a valid UUID")
the_uuid require_lowercase name source (some parsed) =
    if require_lowercase
    then (if source == parsed
        then ok parsed
        else error (text_append name " must be a lowercase canonical UUID"))
    else ok parsed

-- parse_uuid of a JSON value; the UUID is its canonical text.
unfoldable pub parse_uuid : Formats → Json → String → Bool → Read String
parse_uuid f (text s) name require_lowercase =
    the_uuid require_lowercase name s (f.canonical_uuid s)
parse_uuid f _ name require_lowercase = error (text_append name " must be a UUID string")

abbrev the_time : String → Option Moment → Read ℕ
the_time name none = error (text_append name " must be a valid RFC3339 datetime")
the_time name (some naive) = error (text_append name " must include a timezone")
the_time name (some (zoned t)) = ok t

-- parse_datetime
unfoldable pub parse_datetime : Formats → Json → String → Read ℕ
parse_datetime f (text s) name = the_time name (f.fromisoformat (utc_offset s))
parse_datetime f _ name = error (text_append name " must be an RFC3339 string")

-- str of an integer
abbrev pub int_text : ℤ → String
int_text (pos n) = str n
int_text (negsuc n) = text_append "-" (str (suc n))

abbrev checked_cron : String → String → Read String
checked_cron name s =
    if is_blank s || not (s == strip s) || has_control s
    then error (text_append "cron." (text_append name " contains an invalid expression"))
    else ok s

abbrev cron_text : String → Json → Read String
cron_text name (text s) = checked_cron name s
cron_text name (number n) = checked_cron name (int_text n)
cron_text name _ = error (text_append "cron." (text_append name " must be a string or integer"))

-- cron_value
unfoldable pub cron_value : Members → String → Read String
cron_value fields name = cron_text name (or_default (text "*") (value_at name fields))

-- CronFields.from_dict
unfoldable pub cron_from_dict : Json → Read CronFields
unfolding require_mapping cron_value
cron_from_dict value = do
  fields ← require_mapping value "cron"
  year ← cron_value fields "year"
  month ← cron_value fields "month"
  day_of_week ← cron_value fields "day_of_week"
  day ← cron_value fields "day"
  hour ← cron_value fields "hour"
  minute ← cron_value fields "minute"
  second ← cron_value fields "second"
  ok (record {
    year = year;
    month = month;
    day_of_week = day_of_week;
    day = day;
    hour = hour;
    minute = minute;
    second = second;
  })

-- Device.from_dict
unfoldable pub device_from_dict : Json → Read Device
unfolding require_mapping integer required_text optional_text
device_from_dict value = do
  fields ← require_mapping value "device"
  device_id ← integer fields "device_id" 1
  device_name ← required_text fields "device_name"
  status ← required_text fields "status"
  known_agent_version ← optional_text fields "known_agent_version"
  ok (record {
    device_id = device_id;
    device_name = device_name;
    status = status;
    known_agent_version = known_agent_version;
  })
