-- ===== src/Config.antt =====
-- internal/config/config.go: the configuration that the environment gives. `getenv` is the
-- environment: `os.Getenv` gives the empty text for a variable that is not set.
pub mod Atoi
use chronos_monitor.Prelude.{ℕ, String, str_eq, ℤ, pos, Option, none, some, Bool, if◌then◌else◌}
use chronos_monitor.Clock.{Duration, duration_of, second}
use chronos_monitor.Config.Atoi.{atoi}

pub record Config : Type 0 where
  pub port : String
  pub db_path : String
  pub db_driver : String
  pub db_dsn : String
  pub ttl_sweep_interval : Duration
  pub alert_webhook_url : String
  pub alert_webhook_format : String
  pub alert_rate_limit_per_minute : ℤ
  pub api_key : String
  pub retention_days : ℤ
  pub retention_sweep_interval : Duration
  pub missed_run_check_interval : Duration

abbrev int_or : ℤ → Option ℤ → ℤ
int_or fallback none = fallback
int_or fallback (some n) = n

module _ (getenv : String → String) where
  abbrev pub get_env : String → String → String
  get_env key fallback = if str_eq (getenv key) "" then fallback else getenv key

  unfoldable pub get_env_int : String → ℤ → ℤ
  get_env_int key fallback =
      if str_eq (getenv key) "" then fallback else int_or fallback (atoi (getenv key))

  -- `getEnvSeconds(key, fallback) * time.Second`
  abbrev pub get_env_seconds : String → ℤ → Duration
  get_env_seconds key fallback = duration_of (get_env_int key fallback) second

  unfoldable pub load : Config
  load = record {
    port = get_env "CHRONOS_PORT" "8080";
    db_path = get_env "CHRONOS_DB_PATH" "data/chronos.db";
    db_driver = get_env "CHRONOS_DB_DRIVER" "sqlite";
    db_dsn = get_env "CHRONOS_DB_DSN" "";
    ttl_sweep_interval = get_env_seconds "CHRONOS_TTL_SWEEP_INTERVAL_SECONDS" (pos 30);
    alert_webhook_url = get_env "CHRONOS_ALERT_WEBHOOK_URL" "";
    alert_webhook_format = get_env "CHRONOS_ALERT_WEBHOOK_FORMAT" "slack";
    alert_rate_limit_per_minute = get_env_int "CHRONOS_ALERT_RATE_LIMIT_PER_MINUTE" (pos 10);
    api_key = get_env "CHRONOS_API_KEY" "";
    retention_days = get_env_int "CHRONOS_RETENTION_DAYS" (pos 0);
    retention_sweep_interval =
        get_env_seconds "CHRONOS_RETENTION_SWEEP_INTERVAL_SECONDS" (pos 3600);
    missed_run_check_interval =
        get_env_seconds "CHRONOS_MISSED_RUN_CHECK_INTERVAL_SECONDS" (pos 60);
  }
