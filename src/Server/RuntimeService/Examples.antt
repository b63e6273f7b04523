-- ===== src/Server/RuntimeService/Examples.antt =====
-- A snapshot of two schedules, whose rows come in no order.
use time_weaver.Prelude.{
  ℕ, true, false, none, some, String, List, [], ◌∷◌, refl, get, put, insert_by, sort_by, contains,
}
use time_weaver.Agent.Models.{CronFields}
use time_weaver.Server.AgentRuntime.{CronColumns, TaskFields, GroupRow, DetailRow, SnapshotRows}
use time_weaver.Server.RuntimeService.{
  SnapshotDetail, SnapshotGroup, Snapshot, cron_of, group_dict, normalize_task_row, rank_details,
  normalize_snapshot,
}
use time_weaver.Server.RuntimeService.Ranks.{IsDense, normalize_snapshot-IsDense}

abbrev hourly : CronColumns
hourly = record {
  year = none;
  month = none;
  day_of_week = none;
  day = none;
  hour = none;
  minute = some "0";
  second = some "0";
}

abbrev the_cron : CronFields
the_cron = record {
  year = "*";
  month = "*";
  day_of_week = "*";
  day = "*";
  hour = "*";
  minute = "0";
  second = "0";
}

abbrev keep_week : TaskFields
keep_week = record {
  task_type = "housekeep";
  command = none;
  archive_type = none;
  source_path = none;
  error_on_missing_source = false;
  destination_path = none;
  date_format = none;
  target_date_format = none;
  destination_date_format = none;
  house_keep_days = some 7;
}

abbrev row_of : String → ℕ → DetailRow
row_of id sequence = record {
  detail_id = id;
  schedule_id = 4;
  is_live = true;
  schedule_name = none;
  cron = hourly;
  is_error_stop = false;
  sequence = sequence;
  retry_count = none;
  task = some keep_week;
}

abbrev detail_at : String → ℕ → ℕ → SnapshotDetail
detail_at id sequence rank = record {
  detail_id = id;
  schedule_name = none;
  cron = the_cron;
  is_error_stop = false;
  sequence = sequence;
  exec_sequence = rank;
  retry_count = 0;
  task = keep_week;
}

abbrev group_row : ℕ → GroupRow
group_row id = record {
  schedule_id = id;
  target_device = 1;
  status = "active";
  name = "nightly";
  cron = hourly;
  is_error_stop = true;
}

abbrev group_with : ℕ → List SnapshotDetail → SnapshotGroup
group_with id details = record {
  schedule_id = id;
  name = "nightly";
  cron = the_cron;
  is_error_stop = true;
  details = details;
}

abbrev ranked_details : List SnapshotDetail
ranked_details = detail_at "a" 10 1 ∷ detail_at "b" 10 1 ∷ detail_at "c" 25 2 ∷ []

abbrev three_rows : SnapshotRows
three_rows = record {
  db_now = 60;
  device = record {
    device_id = 1;
    device_name = "mill";
    status = "active";
    version = none;
    applied_revision = none;
    last_heartbeat_at = none;
  };
  groups = group_row 9 ∷ group_row 4 ∷ [];
  details = row_of "c" 25 ∷ row_of "b" 10 ∷ row_of "a" 10 ∷ [];
  manuals = [];
}

abbrev the_snapshot : Snapshot
the_snapshot = record {
  device_id = 1;
  device_name = "mill";
  known_agent_version = none;
  schedules = (4, group_with 4 ranked_details) ∷ (9, group_with 9 []) ∷ [];
  manual_runs = [];
}

normalize_snapshot-IsDense_example : IsDense ranked_details
unfolding normalize_snapshot get put insert_by sort_by contains cron_of group_dict
    normalize_task_row rank_details
normalize_snapshot-IsDense_example =
    normalize_snapshot-IsDense three_rows the_snapshot 4 (group_with 4 ranked_details) refl refl
