-- ===== src/Threads/Continuing.antt =====
-- The runs from one moment to a later one, under any interleaving but those of the retention job.
use chronos_monitor.Prelude.{◌≡◌, String, List, Option, some, Bool, All, All-imp}
use chronos_monitor.Clock.{Time}
use chronos_monitor.Database.{Outcome}
use chronos_monitor.Models.{TaskStatus}
use chronos_monitor.System.{
  Request, start, heartbeat, success, failed, get_task, list_tasks, register, list_schedules,
  delete_schedule,
}
use chronos_monitor.Tasks.Lifecycle.{
  Continues, Continues-refl, Continues-update, Keeps, Keeps-order, insert_unless-Continues,
  beat-Follows, finish_row-Follows,
}
use chronos_monitor.Threads.After.{IsAllowedTurn, turns-After, reached}
use chronos_monitor.Threads.{
  Pool, Turn, arriving, sweep_due, check_due, clean_due, moving, joining, leaving, receiving, turns,
}
use chronos_monitor.Threads.Ending.{AnswersWithin, move-AnswersWithin}
use chronos_monitor.Threads.Interleavings.{new_pool, new_pool-IsOrderly, turns_lem}
use chronos_monitor.Threads.Lives.{Respects, IsAllowed}

-- No tick of the retention job.
abbrev pub IsKept : Turn → Type 0
IsKept (clean_due c now) = ⊥
IsKept (arriving q now) = Unit
IsKept (sweep_due now) = Unit
IsKept (check_due now) = Unit
IsKept (moving i) = Unit
IsKept joining = Unit
IsKept (leaving id) = Unit
IsKept (receiving id) = Unit

allowed : (q : Request) → IsAllowed Unit q
allowed (start body new_string) = tt
allowed (heartbeat body) = tt
allowed (success body) = tt
allowed (failed body) = tt
allowed (get_task run_id) = tt
allowed (list_tasks status) = tt
allowed (register body) = tt
allowed list_schedules = tt
allowed (delete_schedule task_name) = tt

kept_turn : (t : Turn) → IsKept t → IsAllowedTurn Unit t
kept_turn (clean_due c now) l = l
kept_turn (arriving q now) l = allowed q
kept_turn (sweep_due now) l = tt
kept_turn (check_due now) l = tt
kept_turn (moving i) l = tt
kept_turn joining l = tt
kept_turn (leaving id) l = tt
kept_turn (receiving id) l = tt

kept_turns : (ts : List Turn) → All IsKept ts → All (IsAllowedTurn Unit) ts
kept_turns ts = All-imp IsKept (IsAllowedTurn Unit) ts kept_turn

writes_respect : Respects Keeps Unit
writes_respect = record {
  order = Keeps-order;
  still = λ a b e. rw e (Continues-refl a.task_runs);
  creates = λ row db. insert_unless-Continues _ row db;
  beats = λ run_id at db. Continues-update _ _ db.task_runs (beat-Follows at);
  expires =
      λ now c db. Continues-update _ _ db.task_runs (finish_row-Follows TaskStatus.timeout now _ _);
  ends = λ may run_id status message at duration db.
      Continues-update _ _ db.task_runs (finish_row-Follows status at duration message);
}

module _ (format : Time → String) (parse_standard : String → Option (Time → Time))
    (collates : String → String → Bool) where
  -- However the requests, the sweeps, the missed-run checks and the clients of the event stream of a
  -- new server are interleaved, access by access, with whatever outcomes of the statements, and
  -- without the retention job: from any moment to any later one no run is lost, the id, name, source,
  -- start and TTL of each stay what they were, and a run that has an end goes on having one.
  pub turns-Continues :
      (before after : List Turn) (outcomes : List Outcome)
      → All IsKept before
      → All IsKept after
      → (mid end : Pool) × (turns format parse_standard collates before (new_pool outcomes)
          ≡ some mid)
        × (turns format parse_standard collates after mid ≡ some end)
        × Continues mid.server.db.task_runs end.server.db.task_runs
  turns-Continues before after outcomes kept kept' =
      let (mid, e, o, f) =
        turns_lem format parse_standard collates AnswersWithin
          (move-AnswersWithin format parse_standard collates) before (new_pool outcomes)
          (new_pool-IsOrderly format parse_standard collates outcomes) in
      let (end, e', o', f') =
        turns_lem format parse_standard collates AnswersWithin
          (move-AnswersWithin format parse_standard collates) after mid o in
      let (keeping, first) =
        reached Keeps Unit writes_respect format parse_standard collates (new_pool outcomes) _ mid e
          (turns-After Keeps Unit writes_respect format parse_standard collates before _
            (kept_turns before kept) tt) in
      let (keeping', second) =
        reached Keeps Unit writes_respect format parse_standard collates mid _ end e' (
          turns-After Keeps Unit writes_respect format parse_standard collates after mid
            (kept_turns after kept') keeping) in
      (mid, end, e, e', second)
