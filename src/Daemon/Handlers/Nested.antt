-- ===== src/Daemon/Handlers/Nested.antt =====
-- `handle_kill_SIGUSR` of daemon/src/nhi.c for a shell that was started from another one.
use nhi.Prelude.{ℕ, List, ◌∷◌}
use nhi.Daemon.Decimal.{decimal}
use nhi.Daemon.Sqlite.{Sqlite}
use nhi.Daemon.Os.{Os}
use nhi.Daemon.Store.{Store}
use nhi.Daemon.Handlers.{Daemon}

-- What the output of the parent gets: the byte -3 and the new session's indicator.
abbrev pub link_to : ℕ → List ℕ
link_to indicator = 253 ∷ decimal indicator
