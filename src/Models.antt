-- ===== src/Models.antt =====
-- internal/models/task.go and internal/models/schedule.go: the records that the components
-- exchange. An optional field, a nil pointer in the source, is an `Option`.
use chronos_monitor.Prelude.{String, ℤ, Bool, true, false, Option}
use chronos_monitor.Clock.{Time}

pub data TaskStatus : Type 0 where
  running success failed timeout missed : TaskStatus

-- The text of a status, as it is stored and sent.
abbrev pub status_text : TaskStatus → String
status_text TaskStatus.running = "running"
status_text TaskStatus.success = "success"
status_text TaskStatus.failed = "failed"
status_text TaskStatus.timeout = "timeout"
status_text TaskStatus.missed = "missed"

abbrev pub is_running : TaskStatus → Bool
is_running TaskStatus.running = true
is_running _ = false

pub record TaskRun : Type 0 where
  pub run_id : String
  pub task_name : String
  pub source : String
  pub status : TaskStatus
  pub started_at : Time
  pub finished_at : Option Time
  pub last_heartbeat_at : Option Time
  pub ttl_seconds : Option ℤ
  pub duration_ms : Option ℤ
  pub error_message : String

pub record StartRequest : Type 0 where
  pub task_name : String
  pub run_id : String
  pub source : String
  pub ttl_seconds : Option ℤ

pub record HeartbeatRequest : Type 0 where
  pub run_id : String

pub record SuccessRequest : Type 0 where
  pub run_id : String

pub record FailedRequest : Type 0 where
  pub run_id : String
  pub error_message : String

pub data ScheduleStatus : Type 0 where
  ok missed : ScheduleStatus

abbrev pub is_ok : ScheduleStatus → Bool
is_ok ScheduleStatus.ok = true
is_ok ScheduleStatus.missed = false

pub record Schedule : Type 0 where
  pub task_name : String
  pub expected_interval_seconds : Option ℤ
  pub cron_expression : Option String
  pub grace_period_seconds : ℤ
  pub last_seen_at : Option Time
  pub status : ScheduleStatus
  pub updated_at : Time

pub record RegisterScheduleRequest : Type 0 where
  pub task_name : String
  pub expected_interval_seconds : Option ℤ
  pub cron_expression : Option String
  pub grace_period_seconds : ℤ
