-- ===== src/Cleaner.antt =====
-- internal/retention/retention.go: the job that deletes finished runs. The number of deleted rows
-- and an error are only logged.
pub mod Window
mod Tests
use chronos_monitor.Prelude.{ℕ, ◌*◌, ℤ, pos, ◌*ℤ◌, negsuc, ◌-ℤ◌}
use chronos_monitor.Clock.{Time, Duration, add, wrap64, duration_of, hour}
use chronos_monitor.Tasks.{delete_older_than}
use chronos_monitor.Server.{Server}

pub record Cleaner : Type 0 where
  pub retain : Duration
  pub interval : Duration

-- `time.Duration(retentionDays) * 24 * time.Hour`, each product an int64
unfoldable pub new_cleaner : ℤ → Duration → Cleaner
new_cleaner retention_days interval = record {
  retain = duration_of (duration_of retention_days 24) hour;
  interval = interval;
}

-- `time.Now().UTC().Add(-c.retain)`, the negation an int64
unfoldable pub cutoff_of : Cleaner → Time → Time
cutoff_of c now = add now (wrap64 (pos 0 -ℤ c.retain))

unfoldable pub clean_once : Cleaner → Time → Server → Server
clean_once c now s = record s { db = (delete_older_than (cutoff_of c now) s.db).1 }
