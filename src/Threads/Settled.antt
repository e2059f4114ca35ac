-- ===== src/Threads/Settled.antt =====
-- A run that has ended, while the jobs and all requests but the reports of an end go on.
use chronos_monitor.Prelude.{◌≡◌, ◌⊎◌, List, [], ◌∷◌, true}
use chronos_monitor.Models.{is_running}
use chronos_monitor.Database.{TaskRow, Db}
use chronos_monitor.Threads.{Point, Turn}
use chronos_monitor.Threads.Lives.{IsKeeping}
use chronos_monitor.Threads.After.{IsAllowedTurn}

-- Each row that is not running is still there, unchanged; new rows come behind.
abbrev pub Settled : List TaskRow → List TaskRow → Type 0
Settled [] rows' = Unit
Settled (row ∷ rows) [] = ⊥
Settled (row ∷ rows) (row' ∷ rows') =
    ((is_running row.status ≡ true) ⊎ (row' ≡ row)) × Settled rows rows'

abbrev Settles : Db → Db → Type 0
Settles a b = Settled a.task_runs b.task_runs

-- A thread that is not about to report the end of a run, nor of the retention job, and a turn by
-- which no such thread comes in.
abbrev pub IsHarmless : Turn → Type 0
IsHarmless = IsAllowedTurn ⊥

abbrev pub IsBystander : Point → Type 0
IsBystander = IsKeeping ⊥
