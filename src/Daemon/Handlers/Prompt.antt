-- ===== src/Daemon/Handlers/Prompt.antt =====
-- `handle_kill_SIGRTMIN` of daemon/src/nhi.c, with which a shell says that a command has ended and
-- that it shows the next prompt.
use nhi.Prelude.{ℕ, ◌+◌, ◌≡◌, refl, List, [], ◌∷◌, ◌++◌, none, some, codes}
use nhi.Common.{Shell, KillEvent, shell_pid_of, zero_shell, shells_max_entries}
use nhi.Kernel.Table.{find_pid, IsTable}
use nhi.Daemon.Clock.{get_indicator}
use nhi.Daemon.Sqlite.{Sqlite}
use nhi.Daemon.Os.{Os, getenv}
use nhi.Daemon.Environ.{get_shell_environ}
use nhi.Daemon.Store.{Row, Store, Documented}
use nhi.Daemon.Writers.Effects.{Shows}
use nhi.Daemon.Handlers.{Daemon, handle_kill_sigrtmin}
use nhi.Daemon.Handlers.Lookup.{find_shell}
use nhi.Daemon.Handlers.Rows.{complete, prompt_row, with_rows, with_rows-same}
use nhi.Daemon.Handlers.Completion.{end_command-effect}

-- A tracked shell says that a command has ended, its session has its table, its environment can be read while the
-- original one stands, and the four variables are in it. Then the last row gets the command, the
-- exit status, the time and the indicator of the end, a new row with the prompt and the working
-- directory follows it, no other row and no session changes, nothing is logged, and the original
-- environment is back.
pub command_ends :
    (sq : Sqlite) (view : sq.Db → Store) (os : Os) (d : Daemon sq) (e : KillEvent) (ss : List Shell)
    (s : Shell) (env : List (List ℕ)) (rows : List Row) (r : Row)
    (command exit_status ps1 pwd : List ℕ)
    → Documented sq view s.indicator
    → IsTable shell_pid_of zero_shell shells_max_entries d.shells ss
    → find_pid shell_pid_of e.shell_pid ss ≡ some s
    → (view d.conn.db).tables s.indicator ≡ some (rows ++ r ∷ [])
    → get_shell_environ os e.shell_pid s.environ_address d.environ ≡ (some env, [])
    → getenv (codes "NHI_LAST_EXECUTED_COMMAND") env ≡ some command
    → getenv (codes "NHI_EXIT_STATUS") env ≡ some exit_status
    → getenv (codes "NHI_PS1") env ≡ some ps1
    → getenv (codes "PWD") env ≡ some pwd
    → let n = d.conn.ticks in
      (d' : Daemon sq) × (handle_kill_sigrtmin sq os e d ≡ some d')
      × (view d'.conn.db
          ≡ with_rows s.indicator
              ((rows
                  ++ complete command exit_status
                      (os.now n).tv_sec
                      (get_indicator (os.now (n + 1)))
                      r
                    ∷ [])
                ++ prompt_row ps1 pwd ∷ [])
              (view d.conn.db))
      × (d'.conn.log ≡ d.conn.log)
      × (d'.environ ≡ none)
      × (d'.shells ≡ d.shells)
unfolding handle_kill_sigrtmin
command_ends sq view os d e ss s env rows r command exit_status ps1 pwd doc t found at read e1 e2 e3
      e4 =
    let start : Shows view d.conn (with_rows s.indicator (rows ++ r ∷ []) (view d.conn.db))
        d.conn.log d.conn.ticks =
      record {
        store = with_rows-same s.indicator (rows ++ r ∷ []) (view d.conn.db) at;
        log = refl;
        ticks = refl;
      } in
    let (d', runs, shown, same, shells) =
      end_command-effect doc os (record d { environ = some env }) env rows r (view d.conn.db)
        command exit_status ps1 pwd refl e1 e2 e3 e4 start in
    (d', rw (find_shell e.shell_pid s t found, read) runs, shown.store, shown.log, same, shells)
