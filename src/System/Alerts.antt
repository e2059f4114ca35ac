-- ===== src/System/Alerts.antt =====
-- From an overdue run to the webhook: a tick of internal/sweeper, the hub, the loop of
-- internal/notifier/dispatcher.go as cmd/server/main.go makes it for a configuration, and the
-- requests that Notify sends.
use chronos_monitor.Prelude.{
  suc, ◌≤◌, ◌≡◌, refl, ap, ◌∙◌, String, List, [], ◌∷◌, ◌++◌, map, take, take-all, length, some,
  true, pos, leb_ℤ, All,
}
use chronos_monitor.Clock.{Time}
use chronos_monitor.Models.{TaskRun}
use chronos_monitor.Config.{Config}
use chronos_monitor.Database.{TaskRow, ScheduleRow}
use chronos_monitor.Database.Keys.{IsDistinct}
use chronos_monitor.Database.Rounds.{found_in}
use chronos_monitor.Tasks.{scan_task_run}
use chronos_monitor.Tasks.Invariant.{run_key}
use chronos_monitor.Tasks.Sweep.{quiet, is_overdue, timed_out_row}
use chronos_monitor.Broker.{Hub, capacity, subscribe}
use chronos_monitor.Broker.Publishing.{IsSound}
use chronos_monitor.Broker.Soundness.{subscribe-IsSound}
use chronos_monitor.Broker.Queues.{has_sub-subscribed, queue-subscribed}
use chronos_monitor.Dispatcher.{Action, ignored, suppressed, notified}
use chronos_monitor.Loops.{woken, Dispatched, dispatch_loop}
use chronos_monitor.Loops.Draining.{alerted, IsAlert, dispatch_loop-Does}
use chronos_monitor.Notifier.{Payload, WebhookNotifier, build_payload}
use chronos_monitor.Startup.{notifier_of, dispatcher_of}
use chronos_monitor.Server.{Server}
use chronos_monitor.Sweeper.{timeout_event, sweep_once}
use chronos_monitor.Sweeper.Publishing.{sweep_once_lem}

-- The requests to the webhook for what the dispatcher did.
unfoldable pub posts_of : WebhookNotifier → List Action → List (String × Payload)
posts_of n [] = []
posts_of n (ignored ∷ rest) = posts_of n rest
posts_of n (suppressed ∷ rest) = posts_of n rest
posts_of n (notified task ∷ rest) = (n.url, build_payload n task) ∷ posts_of n rest

-- The runs that a sweep times out, as they then are.
abbrev pub overdue : Time → List TaskRow → List TaskRun
overdue now rows = found_in (is_overdue now) (timed_out_row now) scan_task_run rows

posts_of-alerted :
    (n : WebhookNotifier) (tasks : List TaskRun)
    → posts_of n (map alerted (map timeout_event tasks))
      ≡ map (λ task. (n.url, build_payload n task)) tasks
unfolding posts_of
posts_of-alerted n [] = refl
posts_of-alerted n (task ∷ tasks) =
    ap (λ l. (n.url, build_payload n task) ∷ l) (posts_of-alerted n tasks)

timeout_events-IsAlert : (tasks : List TaskRun) → All IsAlert (map timeout_event tasks)
timeout_events-IsAlert [] = tt
timeout_events-IsAlert (task ∷ tasks) = (refl, timeout_events-IsAlert tasks)

length-map : (tasks : List TaskRun) → length (map timeout_event tasks) ≡ length tasks
length-map [] = refl
length-map (task ∷ tasks) = ap suc (length-map tasks)

-- With an alert dispatcher that has just subscribed to a sound hub and has no rate limit, and no
-- driver error, let a tick of the sweep on a table with distinct run ids time out at most 16 runs:
-- once the dispatcher has received as often, one request has gone to the configured URL for each
-- run that was overdue, in the order of the table, with what the configured format makes of the run
-- as the sweep left it.
pub sweep-posts :
    (cfg : Config) (now : Time) (times : List Time) (rows : List TaskRow)
    (schedules : List ScheduleRow) (hub : Hub)
    → IsDistinct run_key rows
    → IsSound hub
    → leb_ℤ cfg.alert_rate_limit_per_minute (pos 0) ≡ true
    → length (overdue now rows) ≤ capacity
    → length (overdue now rows) ≤ length times
    → (s : Server) × (x : Dispatched) × (sweep_once now
          (record { db = quiet rows schedules; hub = (subscribe hub).1 })
        ≡ some s)
      × (dispatch_loop (map woken times) (subscribe hub).0 (dispatcher_of cfg) s.hub ≡ some x)
      × (posts_of (notifier_of cfg) x.actions
          ≡ map
              (λ task. (cfg.alert_webhook_url, build_payload (notifier_of cfg) task))
              (overdue now rows))
unfolding subscribe
sweep-posts cfg now times rows schedules hub distinct sound free few enough =
    let evts = map timeout_event (overdue now rows) in
    let same : length evts ≡ length (overdue now rows) = length-map (overdue now rows) in
    let (hub', swept, queue) =
      sweep_once_lem now rows schedules (subscribe hub).1 hub.next distinct
        (subscribe-IsSound hub sound) (has_sub-subscribed hub) in
    let all : (hub'.channels hub.next).queue ≡ evts =
      queue
      ∙ ap (λ q. take capacity (q ++ evts)) (queue-subscribed hub)
      ∙ take-all capacity evts (rw same few) in
    let (x, ran, did) =
      dispatch_loop-Does times evts hub.next (dispatcher_of cfg) hub' all
        (timeout_events-IsAlert (overdue now rows)) free (rw same enough) in
    (
      _,
      x,
      swept,
      ran,
      ap (posts_of (notifier_of cfg)) did ∙ posts_of-alerted (notifier_of cfg) (overdue now rows),
    )
