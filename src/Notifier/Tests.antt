-- ===== src/Notifier/Tests.antt =====
-- The text of a concrete alert.
use chronos_monitor.Prelude.{
  ◌+◌, ◌≤◌, ◌≡◌, refl, pos, ◌++◌, [], ◌∷◌, length, none, some, decimal_within,
}
use chronos_monitor.Models.{TaskStatus, TaskRun}
use chronos_monitor.Notifier.{format_message, truncate}
use chronos_monitor.Notifier.Bytes.{bytes}
use chronos_monitor.Notifier.Length.{size, format_message-length}

abbrev task : TaskRun
task = record {
  run_id = "r1";
  task_name = "nightly-backup";
  source = "";
  status = TaskStatus.failed;
  started_at = pos 0;
  finished_at = some (pos 4);
  last_heartbeat_at = some (pos 0);
  ttl_seconds = none;
  duration_ms = some (pos 1207);
  error_message = "boom";
}

format_message-length_example :
    length (format_message task) ≤ size "nightly-backup" + size "r1" + size "" + 605
format_message-length_example = format_message-length task

text_of_alert :
    format_message task ≡ bytes "🔴 *nightly-backup* failed (run `r1`)\nDuration: 1207ms\n```boom```"
unfolding format_message bytes decimal_within
text_of_alert = refl

-- The cut may fall inside a character: "é" is two bytes, and one is left.
cut_inside_a_character : truncate (bytes "é") 1 ≡ (195 ∷ []) ++ bytes "... (truncated)"
unfolding bytes
cut_inside_a_character = refl
