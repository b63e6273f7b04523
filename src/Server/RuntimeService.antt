-- ===== src/Server/RuntimeService.antt =====
-- AgentRuntimeService of server/services/agent/runtime_service.py with the task fields of
-- task_contract.py. The texts of UTC times in their fixed format are in the order of the times.
mod Order
pub mod Ranks
mod Examples
use time_weaver.Prelude.{
  ℕ, ◌+◌, Bool, true, false, not, ◌&&◌, ◌||◌, Option, none, some, String, List, [], ◌∷◌, ◌++◌, map,
  Dict, get, put, ◌==◌, option_same, if◌then◌else◌, ltb, leb, contains, is_none, is_blank, strip,
  reads_as, sort_by, text_le, text_comparable, nat_comparable, Result, ok, error, ◌>>=◌, ◌>>◌,
}
use time_weaver.Agent.Models.{CronFields}
use time_weaver.Server.AgentRuntime.{
  CronColumns, TaskFields, GroupRow, DetailRow, ManualRow, Tables, record_heartbeat, SnapshotRows,
  load_snapshot,
}

abbrev or_star : Option String → String
or_star none = "*"
or_star (some s) = s

-- _cron
unfoldable pub cron_of : CronColumns → CronFields
cron_of c = record {
  year = or_star c.year;
  month = or_star c.month;
  day_of_week = or_star c.day_of_week;
  day = or_star c.day;
  hour = or_star c.hour;
  minute = or_star c.minute;
  second = or_star c.second;
}

-- An empty sentinel of a text column is cleared.
abbrev cleared : Option String → Option String
cleared none = none
cleared (some s) = if is_blank (strip s) || reads_as (strip s) "null" then none else some s

abbrev forbidden : String → List String
forbidden task_type =
    if task_type == "command"
    then "archive_type" ∷ "source_path" ∷ "destination_path" ∷ "house_keep_days" ∷ []
    else if task_type == "copy"
    then "command" ∷ "archive_type" ∷ "house_keep_days" ∷ []
    else if task_type == "archive"
    then "command" ∷ "house_keep_days" ∷ []
    else if task_type == "housekeep"
    then "command" ∷ "archive_type" ∷ "source_path" ∷ []
    else []

abbrev unless {ℓ} : {A : Type ℓ} → String → String → Option A → Option A
unless name task_type value = if contains name (forbidden task_type) then none else value

-- normalize_task_row
unfoldable pub normalize_task_row : TaskFields → TaskFields
normalize_task_row t = record t {
  command = unless "command" t.task_type (cleared t.command);
  archive_type = unless "archive_type" t.task_type (cleared t.archive_type);
  source_path = unless "source_path" t.task_type (cleared t.source_path);
  destination_path = unless "destination_path" t.task_type (cleared t.destination_path);
  date_format = cleared t.date_format;
  target_date_format = cleared t.target_date_format;
  destination_date_format = cleared t.destination_date_format;
  house_keep_days = unless "house_keep_days" t.task_type t.house_keep_days;
}

pub record SnapshotDetail : Type 0 where
  pub detail_id : String
  pub schedule_name : Option String
  pub cron : CronFields
  pub is_error_stop : Bool
  pub sequence : ℕ
  pub exec_sequence : ℕ
  pub retry_count : ℕ
  pub task : TaskFields

pub record SnapshotGroup : Type 0 where
  pub schedule_id : ℕ
  pub name : String
  pub cron : CronFields
  pub is_error_stop : Bool
  pub details : List SnapshotDetail

pub record SnapshotManual : Type 0 where
  pub manual_id : ℕ
  pub schedule_id : ℕ
  pub detail_id : String
  pub status : String
  pub is_immediate : Bool
  pub schedule_datetime : ℕ
  pub claimable : Bool

-- The state of the loop over the details in _normalize_snapshot.
pub record Ranking : Type 0 where
  pub groups_by_id : Dict ℕ SnapshotGroup
  pub previous_sequence : Dict ℕ ℕ
  pub dense_rank : Dict ℕ ℕ

abbrev new_group : GroupRow → SnapshotGroup
new_group g = record {
  schedule_id = g.schedule_id;
  name = g.name;
  cron = cron_of g.cron;
  is_error_stop = g.is_error_stop;
  details = [];
}

unfoldable pub group_dict : List GroupRow → Dict ℕ SnapshotGroup → Dict ℕ SnapshotGroup
unfolding cron_of
group_dict [] d = d
group_dict (g ∷ groups) d = group_dict groups (put g.schedule_id (new_group g) d)

abbrev pub or_zero : Option ℕ → ℕ
or_zero none = 0
or_zero (some n) = n

-- The rank of a row's sequence, from the previous sequence and rank of its schedule.
abbrev pub rank_after : Option ℕ → Option ℕ → ℕ → ℕ
rank_after previous rank sequence =
    if option_same previous (some sequence) then or_zero rank else or_zero rank + 1

abbrev pub ranked : DetailRow → TaskFields → ℕ → SnapshotDetail
ranked d task rank = record {
  detail_id = d.detail_id;
  schedule_name = d.schedule_name;
  cron = cron_of d.cron;
  is_error_stop = d.is_error_stop;
  sequence = d.sequence;
  exec_sequence = rank;
  retry_count = or_zero d.retry_count;
  task = normalize_task_row task;
}

abbrev pub with_detail : DetailRow → TaskFields → ℕ → SnapshotGroup → Ranking → Ranking
with_detail d task rank g s = record {
  groups_by_id =
      put d.schedule_id (record g { details = g.details ++ ranked d task rank ∷ [] })
        s.groups_by_id;
  previous_sequence = put d.schedule_id d.sequence s.previous_sequence;
  dense_rank = put d.schedule_id rank s.dense_rank;
}

abbrev pub place :
    DetailRow → Option TaskFields → Option SnapshotGroup → Ranking → Result String Ranking
place d task none s = ok s
place d none (some g) s = error "server_error"
place d (some task) (some g) s = ok (
    with_detail d task
      (rank_after (get d.schedule_id s.previous_sequence) (get d.schedule_id s.dense_rank)
        d.sequence)
      g s)

unfoldable pub rank_details : List DetailRow → Ranking → Result String Ranking
unfolding cron_of normalize_task_row
rank_details [] s = ok s
rank_details (d ∷ details) s =
    place d d.task (get d.schedule_id s.groups_by_id) s >>= rank_details details

-- The key (schedule_id, sequence, detail_id).
abbrev pub detail_le : DetailRow → DetailRow → Bool
detail_le a b =
    if a.schedule_id == b.schedule_id
    then (if a.sequence == b.sequence
        then text_le a.detail_id b.detail_id
        else ltb a.sequence b.sequence)
    else ltb a.schedule_id b.schedule_id

abbrev expired_by : ℕ → Option ℕ → Bool
expired_by now none = false
expired_by now (some time) = leb time now

abbrev manual_of : ℕ → ℕ × ManualRow → SnapshotManual
manual_of now (schedule, m) = record {
  manual_id = m.manual_id;
  schedule_id = schedule;
  detail_id = m.detail_id;
  status = m.status;
  is_immediate = m.is_immediate;
  schedule_datetime = m.schedule_datetime;
  claimable = m.status == "wait" || (m.status == "processing" && expired_by now m.claim_expires_at);
}

abbrev manual_le : SnapshotManual → SnapshotManual → Bool
manual_le a b =
    if a.schedule_datetime == b.schedule_datetime
    then leb a.manual_id b.manual_id
    else ltb a.schedule_datetime b.schedule_datetime

-- The snapshot, with its schedules under their ids.
pub record Snapshot : Type 0 where
  pub device_id : ℕ
  pub device_name : String
  pub known_agent_version : Option String
  pub schedules : Dict ℕ SnapshotGroup
  pub manual_runs : List SnapshotManual

-- AgentRuntimeService._normalize_snapshot
unfoldable pub normalize_snapshot : SnapshotRows → Result String Snapshot
unfolding group_dict rank_details sort_by
normalize_snapshot rows = do
  s ← rank_details (sort_by detail_le rows.details) (record {
    groups_by_id = group_dict (sort_by (λ a b. leb a.schedule_id b.schedule_id) rows.groups) [];
    previous_sequence = [];
    dense_rank = [];
  })
  ok (record {
    device_id = rows.device.device_id;
    device_name = rows.device.device_name;
    known_agent_version = rows.device.version;
    schedules = s.groups_by_id;
    manual_runs = sort_by manual_le (map (manual_of rows.db_now) rows.manuals);
  })

-- AgentRuntimeService._raise_repository_error: the status and the code.
abbrev service_error : String → ℕ × String
service_error code =
    if code == "device_revoked" then (403, "device_revoked") else (503, "unavailable")

abbrev normalized : Result String Snapshot → Result (ℕ × String) Snapshot
normalized (error code) = error (500, code)
normalized (ok snapshot) = ok snapshot

abbrev of_rows : Result String SnapshotRows → Result (ℕ × String) Snapshot
of_rows (error code) = error (service_error code)
of_rows (ok rows) = normalized (normalize_snapshot rows)

-- AgentRuntimeService.snapshot, but for the hash that its revision and tag are made of.
unfoldable pub snapshot : ℕ → ℕ → Tables → Result (ℕ × String) Snapshot
unfolding load_snapshot normalize_snapshot
snapshot now device t = of_rows (load_snapshot now device t)

abbrev of_heartbeat : Result String Tables → Result (ℕ × String) Tables
of_heartbeat (error code) = error (service_error code)
of_heartbeat (ok t) = ok t

-- AgentRuntimeService.heartbeat, whose answer is the id of the device and the time.
unfoldable pub heartbeat : ℕ → ℕ → String → Option String → Tables → Result (ℕ × String) Tables
unfolding record_heartbeat
heartbeat now device version revision t =
    of_heartbeat (record_heartbeat now device version revision t)
