-- ===== src/Connection.antt =====
-- internal/db/db.go: the connection's choice of a backend and the placeholders of its statements.
-- The schemas and what the drivers do are in Database.
pub mod Opening
pub mod Plan
pub mod Marks
pub mod Placeholders
mod Tests
use Prim.Native.Char.{Char, code}
use Prim.Native.String.{[], ◌∷◌, ◌++◌}
use chronos_monitor.Prelude.{
  ℕ, ◌+◌, String, str_eq, pos, decimal, Bool, true, false, not, ◌==◌, ◌||◌, if◌then◌else◌,
}
use chronos_monitor.Config.{Config}

abbrev pub is_mark : Char → Bool
is_mark c = code c == 63

-- `strings.ContainsRune(query, '?')`
unfoldable pub contains_mark : String → Bool
contains_mark [] = false
contains_mark (c ∷ s) = is_mark c || contains_mark s

-- The loop of `rebind`, after `n` placeholders.
unfoldable pub rebind_from : ℕ → String → String
rebind_from n [] = []
rebind_from n (c ∷ s) =
    let next = rebind_from (n + 1) s in
    let same = rebind_from n s in
    if is_mark c then "$" ++ decimal (pos (n + 1)) ++ next else c ∷ same

unfoldable pub rebind : String → String → String
rebind driver query =
    if not (str_eq driver "postgres") || not (contains_mark query)
    then query
    else rebind_from 0 query

-- What `Open` does, as far as the configuration decides it.
pub data Backend : Type 0 where
  sqlite postgres : String → Backend
  no_dsn : Backend
  unsupported : String → Backend

unfoldable pub backend_of : Config → Backend
backend_of cfg =
    if str_eq cfg.db_driver "" || str_eq cfg.db_driver "sqlite"
    then sqlite cfg.db_path
    else if str_eq cfg.db_driver "postgres"
    then if str_eq cfg.db_dsn "" then no_dsn else postgres cfg.db_dsn
    else unsupported cfg.db_driver
