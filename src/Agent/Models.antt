-- ===== src/Agent/Models.antt =====
-- agent/services/time_weaver/models.py: the typed records of the agent's protocol. Parsing holds their
-- construction from JSON.
pub mod Parsing
pub mod Groups
use time_weaver.Prelude.{ℕ, Bool, Option, String, List}

pub record CronFields : Type 0 where
  pub year : String
  pub month : String
  pub day_of_week : String
  pub day : String
  pub hour : String
  pub minute : String
  pub second : String

pub record Device : Type 0 where
  pub device_id : ℕ
  pub device_name : String
  pub status : String
  pub known_agent_version : Option String

-- A time is a number of seconds.
pub record AccessCredential : Type 0 where
  pub access_token : String
  pub access_token_expires_at : ℕ
  pub refresh_token : String
  pub refresh_token_expires_at : ℕ
  pub device_id : Option ℕ
  pub device_name : Option String

pub record ScheduleDetail : Type 0 where
  pub detail_id : String
  pub schedule_name : String
  pub cron : CronFields
  pub is_error_stop : Bool
  pub sequence : ℕ
  pub exec_sequence : ℕ
  pub retry_count : ℕ
  pub task_type : String
  pub command : Option String
  pub archive_type : Option String
  pub source_path : Option String
  pub error_on_missing_source : Bool
  pub destination_path : Option String
  pub date_format : Option String
  pub target_date_format : Option String
  pub destination_date_format : Option String
  pub house_keep_days : Option ℕ

pub record ScheduleGroup : Type 0 where
  pub schedule_id : ℕ
  pub name : String
  pub cron : CronFields
  pub is_error_stop : Bool
  pub details : List ScheduleDetail

pub record ManualExecution : Type 0 where
  pub manual_id : ℕ
  pub schedule_id : ℕ
  pub detail_id : String
  pub status : String
  pub is_immediate : Bool
  pub schedule_datetime : ℕ
  pub claimable : Bool

pub record ScheduleSnapshot : Type 0 where
  pub schema_version : String
  pub revision : String
  pub etag : String
  pub server_time : ℕ
  pub generated_at : ℕ
  pub device : Device
  pub schedules : List ScheduleGroup
  pub manual_runs : List ManualExecution
