-- ===== src/Agent/Application/Sample.antt =====
-- A small agent for the examples: one group of two sequences, and a manual run.
use time_weaver.Prelude.{
  ℕ, true, false, Option, none, some, String, List, [], ◌∷◌, pos, discard, contains, nat_comparable,
  text_comparable,
}
use time_weaver.Agent.ApSchedulerAdapter.{Scheduler}
use time_weaver.Agent.Application.{Application}
use time_weaver.Agent.Application.Events.{EventReporter}
use time_weaver.Agent.Envelope.{ResultEnvelope}
use time_weaver.Agent.Models.{
  CronFields, ScheduleDetail, ScheduleGroup, ScheduleSnapshot, ManualExecution,
}
use time_weaver.Agent.OperatingState.{OperatingStateManager}
use time_weaver.Agent.Outbox.{OutboxSettings, fresh}
use time_weaver.Agent.SyncCoordinator.Apply.{returned, raised}

abbrev pub taking : Scheduler (List String)
taking = record {
  add_job = λ id t. returned (id ∷ t);
  remove_job = λ id t. returned (discard id t);
  has_job = λ id t. contains id t;
}

abbrev pub refusing : Scheduler (List String)
refusing = record {
  add_job = λ id t. raised t;
  remove_job = λ id t. returned t;
  has_job = λ id t. false;
}

abbrev pub no_number : String → Option ℕ
no_number key = none

abbrev pub cron : CronFields
cron = record {
  year = "*";
  month = "*";
  day_of_week = "*";
  day = "*";
  hour = "1";
  minute = "0";
  second = "0";
}

abbrev pub detail : String → ℕ → ScheduleDetail
detail id sequence = record {
  detail_id = id;
  schedule_name = id;
  cron = cron;
  is_error_stop = false;
  sequence = sequence;
  exec_sequence = sequence;
  retry_count = 0;
  task_type = "command";
  command = some "true";
  archive_type = none;
  source_path = none;
  error_on_missing_source = false;
  destination_path = none;
  date_format = none;
  target_date_format = none;
  destination_date_format = none;
  house_keep_days = none;
}

abbrev pub group : ScheduleGroup
group = record {
  schedule_id = 1;
  name = "nightly";
  cron = cron;
  is_error_stop = false;
  details = detail "d1" 1 ∷ detail "d2" 2 ∷ [];
}

abbrev pub manual : ManualExecution
manual = record {
  manual_id = 5;
  schedule_id = 1;
  detail_id = "d1";
  status = "wait";
  is_immediate = true;
  schedule_datetime = 10;
  claimable = true;
}

abbrev pub snapshot : ScheduleSnapshot
snapshot = record {
  schema_version = "1";
  revision = "r";
  etag = "e";
  server_time = 10;
  generated_at = 10;
  device = record {
    device_id = 1;
    device_name = "press";
    status = "active";
    known_agent_version = none;
  };
  schedules = group ∷ [];
  manual_runs = manual ∷ [];
}

abbrev pub healthy : OperatingStateManager
healthy = record {
  has_valid_snapshot = true;
  fail_closed_reasons = [];
  degraded_reasons = [];
  transition_listeners = 0 ∷ [];
}

abbrev pub closed : OperatingStateManager
closed = record healthy { has_valid_snapshot = false; fail_closed_reasons = "device_inactive" ∷ [] }

abbrev pub settings : OutboxSettings
settings = record {
  capacity = 4;
  high_watermark = 3;
  low_watermark = 1;
  sender_workers = 1;
  retry = record { initial_delay = 1000; multiplier = 2000; max_delay = 60000; jitter_ratio = 0 };
}

abbrev pub no_events : EventReporter
no_events = record { event_causes = []; suppressed_counts = []; delivery_failures = 0; sent = [] }

abbrev pub agent : OperatingStateManager → Application (List String)
agent m = record {
  adapter = record { scheduler = []; specs = []; manual_inflight = [] };
  outbox = fresh settings (some m);
  current_snapshot = some snapshot;
  running_tasks = [];
  group_execution_status = [];
  task_completion_status = [];
  manual_execution_status = [];
  events = no_events;
  launched = [];
}

abbrev pub result : ResultEnvelope
result = record {
  execution_grp_id = "c";
  schedule_id = 1;
  detail_id = "d1";
  attempt = 1;
  manual_id = none;
  claim_token = none;
  started_at = "2024-01-01T00:00:00Z";
  finished_at = "2024-01-01T00:00:01Z";
  result_code = pos 0;
  result_message = none;
  environment_info = [];
  sequence = 1;
}
