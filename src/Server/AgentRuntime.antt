-- ===== src/Server/AgentRuntime.antt =====
-- AgentRuntimeRepository of server/repositories/agent_runtime.py. A column is read as its value.
use time_weaver.Prelude.{
  ℕ, Bool, ◌&&◌, Option, none, some, String, List, [], ◌∷◌, ◌++◌, map, ◌==◌, if◌then◌else◌,
  contains, is_none, text_comparable, nat_comparable, Result, ok, error,
}

pub record CronColumns : Type 0 where
  pub year : Option String
  pub month : Option String
  pub day_of_week : Option String
  pub day : Option String
  pub hour : Option String
  pub minute : Option String
  pub second : Option String

pub record TaskFields : Type 0 where
  pub task_type : String
  pub command : Option String
  pub archive_type : Option String
  pub source_path : Option String
  pub error_on_missing_source : Bool
  pub destination_path : Option String
  pub date_format : Option String
  pub target_date_format : Option String
  pub destination_date_format : Option String
  pub house_keep_days : Option ℕ

-- The tables. A detail is live if it is active and not deleted; `task` is its row of task_detail.
pub record DeviceRow : Type 0 where
  pub device_id : ℕ
  pub device_name : String
  pub status : String
  pub version : Option String
  pub applied_revision : Option String
  pub last_heartbeat_at : Option ℕ

pub record GroupRow : Type 0 where
  pub schedule_id : ℕ
  pub target_device : ℕ
  pub status : String
  pub name : String
  pub cron : CronColumns
  pub is_error_stop : Bool

pub record DetailRow : Type 0 where
  pub detail_id : String
  pub schedule_id : ℕ
  pub is_live : Bool
  pub schedule_name : Option String
  pub cron : CronColumns
  pub is_error_stop : Bool
  pub sequence : ℕ
  pub retry_count : Option ℕ
  pub task : Option TaskFields

pub record ManualRow : Type 0 where
  pub manual_id : ℕ
  pub detail_id : String
  pub status : String
  pub is_immediate : Bool
  pub schedule_datetime : ℕ
  pub claim_expires_at : Option ℕ

pub record Tables : Type 0 where
  pub devices : List DeviceRow
  pub groups : List GroupRow
  pub details : List DetailRow
  pub manuals : List ManualRow

unfoldable pub rows_where {ℓ} : {A : Type ℓ} → (A → Bool) → List A → List A
rows_where test [] = []
rows_where test (row ∷ rows) =
    let rest = rows_where test rows in if test row then row ∷ rest else rest

abbrev pub is_active : ℕ → DeviceRow → Bool
is_active device row = row.device_id == device && row.status == "active"

unfoldable pub first_row {ℓ} : {A : Type ℓ} → List A → Option A
first_row [] = none
first_row (row ∷ rows) = some row

abbrev beaten : ℕ → ℕ → String → Option String → DeviceRow → DeviceRow
beaten now device version revision row =
    if is_active device row
    then record row {
      last_heartbeat_at = some now;
      version = some version;
      applied_revision = revision;
    }
    else row

-- AgentRuntimeRepository.record_heartbeat, which raises device_revoked without an active device; a
-- count of changed rows that is not one changes nothing else.
unfoldable pub record_heartbeat : ℕ → ℕ → String → Option String → Tables → Result String Tables
unfolding rows_where first_row
record_heartbeat now device version revision t =
    if is_none (first_row (rows_where (is_active device) t.devices))
    then error "device_revoked"
    else ok (record t { devices = map (beaten now device version revision) t.devices })

-- SnapshotRows; a manual row comes with the schedule of its detail.
pub record SnapshotRows : Type 0 where
  pub db_now : ℕ
  pub device : DeviceRow
  pub groups : List GroupRow
  pub details : List DetailRow
  pub manuals : List (ℕ × ManualRow)

abbrev is_target : ℕ → GroupRow → Bool
is_target device g = g.target_device == device && g.status == "active"

abbrev joins : List GroupRow → DetailRow → Bool
joins groups d = d.is_live && contains d.schedule_id (map (λ g. g.schedule_id) groups)

abbrev waits : ManualRow → Bool
waits m = contains m.status ("wait" ∷ "processing" ∷ [])

-- The join of the live details with the manual runs that wait or are being processed.
unfoldable pub runs_of : List ManualRow → List DetailRow → List (ℕ × ManualRow)
unfolding rows_where
runs_of manuals [] = []
runs_of manuals (d ∷ details) =
    map (λ m. (d.schedule_id, m)) (rows_where (λ m. m.detail_id == d.detail_id && waits m) manuals)
    ++ runs_of manuals details

-- AgentRuntimeRepository.load_snapshot, in one consistent view of the tables; schedule ids are keys.
unfoldable pub load_snapshot : ℕ → ℕ → Tables → Result String SnapshotRows
unfolding rows_where first_row runs_of
load_snapshot now device t = elim (first_row (rows_where (is_active device) t.devices)) [
  | none ↦ error "device_revoked"
  | some row ↦
      let groups = rows_where (is_target device) t.groups in
      let details = rows_where (joins groups) t.details in
      ok (record {
        db_now = now;
        device = row;
        groups = groups;
        details = details;
        manuals = runs_of t.manuals details;
      })
]
