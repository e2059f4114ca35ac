-- ===== src/Lib.antt =====
-- ChronosMonitor: a model of the server's Go code, and what is shown of it.
--
-- Workers report the start, the heartbeats and the end of their runs over HTTP. The handlers write
-- them to the table task_runs and publish an event to the hub. Background jobs sweep runs whose
-- TTL has passed (SweepTimeouts), flag schedules whose start did not come (DetectMissed) and
-- delete old runs (DeleteOlderThan). A dispatcher listens to the hub and sends alerts.
--
-- Which file models what:
--   Clock: Go's time.Time and time.Duration. Instants are nanoseconds since Go's zero time, as
--     unbounded integers; durations are int64, with the wrap-around of products and sums and the
--     saturation of differences written out.
--   Models: internal/models/task.go, internal/models/schedule.go.
--   Database: internal/db/db.go. A table is the list of its rows. Database.Table has the WHERE
--     clauses, exec, query and query_row are Conn.Exec, Conn.Query and Conn.QueryRow. Each
--     statement has an outcome that the environment chooses: done, refused by the driver, lost
--     (done, but reported as an error), or uncounted (RowsAffected fails). Database.Rounds has the
--     loop that SweepTimeouts and DetectMissed share.
--   Tasks: internal/store/task_store.go. create, heartbeat, finish, get, list, sweep_timeouts and
--     delete_older_than are the methods of TaskStore.
--   Schedules: internal/store/schedule_store.go. upsert, touch, get, list, delete and
--     detect_missed are the methods of ScheduleStore.
--   Broker: internal/broker/broker.go. A channel is named by a number in an explicit store;
--     subscribe, unsubscribe and publish are the methods of Hub, and `none` is a panic.
--   Dispatcher: internal/notifier/dispatcher.go. allow, handle and run are the methods of
--     Dispatcher; the clock's reading is an argument.
--   Server, TaskHandler, ScheduleHandler, StreamHandler: internal/handlers. A handler takes the
--     bound request, the clock's reading and the state, and gives the response and the state it
--     leaves.
--   Sweeper, MissedRun, Cleaner: internal/sweeper, internal/missedrun and internal/retention.
--     sweep_once, check_once and clean_once are one tick each.
--   System: cmd/server/main.go and the routes of internal/router/router.go. A step is a request, a
--     tick of a job, or a subscriber that joins, leaves or receives; a run is a list of steps.
--   Threads: the same handlers and jobs taken one access to the database or the hub at a time, and
--     interleaved in any order. A Point is where a thread stands, move its next access, a Turn
--     what happens next; Threads.Ticks has the accesses of a tick, for the sweep and the missed-run
--     check.
--   Loops: the Run of internal/sweeper, internal/missedrun, internal/retention and
--     internal/notifier/dispatcher.go. What select takes each time is an argument.
--   Router: internal/router/router.go, the API key and the embedded dashboard. handle puts the key
--     in front of System's serve. Router.Routes has the routes of New and the engine that it
--     returns, dispatch, over what gin finds for a method and a path.
--   Config, Startup: internal/config/config.go, and the jobs that cmd/server/main.go starts for a
--     configuration; `none` is the panic of time.NewTicker.
--     Startup.Main is main itself, up to its exit.
--   Connection: internal/db/db.go, the placeholders that rebind writes, and Open with the steps
--     that it takes (Connection.Opening).
--   Notifier: internal/notifier/notifier.go, over the bytes of texts.
--   System.Alerts: the way from an overdue run through the sweep, the hub, the dispatcher and the
--     notifier to the webhook.
--   DemoWorker: cmd/demo-worker/main.go. run_demo_task is runDemoTask over an exchange of requests
--     and responses, which DemoWorker.Wire makes of the server's own routes and handlers. What
--     arrives of a header is a parameter, since net/http trims its value or refuses to send it.
--
-- The only fuel is the number of digits of an int64, 19, in Prelude.Decimal; every loop runs over a
-- list. A thread of Threads needs no fuel: how many accesses it has left is a predicate on where it
-- stands (Threads.Ending). Parameters stand for third-party code: cron.ParseStandard with its
-- schedule's Next, the collation of ORDER BY on texts, uuid.NewString, the text of a time, what gin
-- finds for a path, what net/http makes of a header, and the webhook. The SQL engine is modelled by
-- the documented meaning of the statements that the store issues: rows come in table order where no
-- ORDER BY is given, which is one order that an engine may choose; stored times are read back as
-- they were written, which holds for SQLite and, for PostgreSQL, up to microseconds; run_id and
-- task_name are primary keys.
--
-- Not modelled: what the listener does with a connection, the embedded file system of
-- internal/webui, logging, the pauses of the demo worker, JSON encoding and decoding, the text of
-- SQL statements, what happens inside one access (a method that a mutex or a single statement makes
-- atomic is one step), an error of the listener between a signal and the end of the shutdown, how
-- long the panic of a job takes to end the program (it is taken as immediate), the web dashboard
-- and the client packages. The demo worker's requests meet the server one after the other.
pub mod Prelude
pub mod Clock
pub mod Models
pub mod Database
pub mod Tasks
pub mod Schedules
pub mod Broker
pub mod Dispatcher
pub mod Server
pub mod TaskHandler
pub mod ScheduleHandler
pub mod Sweeper
pub mod Cleaner
pub mod MissedRun
pub mod System
pub mod Router
pub mod Config
pub mod Startup
pub mod Connection
pub mod Notifier
pub mod StreamHandler
pub mod Threads
pub mod DemoWorker
pub mod Loops
