-- ===== src/Daemon/Handlers.antt =====
-- `handle_event` of daemon/src/nhi.c and the handlers that it calls. `none` stands for a daemon that
-- ends, or whose behaviour is undefined: strlen of a null pointer, or free of a string of the
-- environment that the process was started with, a text that runs over its array on the stack, or
-- popen with an environment that has no end.
pub mod Lookup
pub mod Rows
pub mod Effects
pub mod Failure
pub mod Completion
pub mod Prompt
pub mod Opening
pub mod Session
pub mod Nested
pub mod Shells
use nhi.Prelude.{
  ℕ, zero, suc, ◌+◌, ◌%◌, List, [], ◌∷◌, ◌++◌, Option, none, some, Bool, true, false, ◌||◌, ◌==◌,
  length, take, if◌then◌else◌, codes, ◌>>=◌,
}
use mathlib.Core.Option
use nhi.Common.{
  Shell, Event, killed, child_created, shell_exited, written, KillEvent, ExitShellIndicatorEvent,
  WriteEvent, sigusr1, sigusr2, sigrtmin, shell_pid_of, shells_max_entries,
}
use nhi.Kernel.Maps.{bpf_map_lookup_elem, bpf_map_update_elem}
use nhi.Kernel.Scan.{free_loop}
use nhi.Wire.{event_of}
use nhi.Daemon.Clock.{get_indicator}
use nhi.Daemon.Decimal.{decimal}
use nhi.Daemon.Sqlite.{Sqlite, Message, Connection, note, checkpoint}
use nhi.Daemon.Os.{Os, Line, not_opened, not_read, line, fgets, getenv}
use nhi.Daemon.Environ.{get_shell_environ_address, get_shell_environ}
use nhi.Daemon.Writers.{
  create_table, create_row, add_ps1, add_command, add_output, add_exit_status, add_pwd,
  add_start_time, add_finish_time, add_indicator, meta_create_row, meta_add_finish_time, tick,
}

-- The globals: the database, the map behind `shells_fd`, the local environment that __environ
-- points to (`none` while it is the original one), and the original one.
pub record Daemon (sq : Sqlite) : Type 0 where
  pub conn : Connection sq
  pub shells : List Shell
  pub environ : Option (List (List ℕ))
  pub original_environ : List (List ℕ)

-- The loop that finds the indicator and the environ address of a shell, both 0 at first. It looks
-- at every entry, free ones too.
unfoldable pub find_shell_loop : ℕ → ℕ → ℕ → List Shell → ℕ × ℕ
find_shell_loop zero i shell_pid shells = (0, 0)
find_shell_loop (suc rounds) i shell_pid shells = elim (bpf_map_lookup_elem shells i) [
  | none ↦ find_shell_loop rounds (i + 1) shell_pid shells
  | some shell ↦ elim (shell.shell_pid == shell_pid) [
    | true ↦ (shell.indicator, shell.environ_address)
    | false ↦ find_shell_loop rounds (i + 1) shell_pid shells
  ]
]

module _ (sq : Sqlite) where
  -- The calls of write_log, each of which reads the clock.
  abbrev pub write_log : List Message → Connection sq → Connection sq
  write_log [] conn = conn
  write_log (m ∷ ms) conn = write_log ms (note sq (some m) conn)

  -- getenv of the environment that __environ points to
  abbrev pub variable : List ℕ → Daemon sq → Option (List ℕ)
  variable name d = elim d.environ [
    | none ↦ getenv name d.original_environ
    | some environ ↦ getenv name environ
  ]

  unfoldable pub reverse_environ : Daemon sq → Option (Daemon sq)
  reverse_environ d = elim d.environ [
    | none ↦ none
    | some environ ↦ some (record d { environ = none })
  ]

module _ (sq : Sqlite) (os : Os) where
  abbrev pub load_environ : ℕ → ℕ → Daemon sq → Daemon sq
  load_environ shell_pid address d =
      let (environ, messages) = get_shell_environ os shell_pid address d.environ in
      record d { conn = write_log sq messages d.conn; environ = environ }

  -- The two rows of the prompt, the checkpoint and the reset of the environment.
  unfoldable pub finish_prompt : ℕ → Daemon sq → Option (Daemon sq)
  unfolding reverse_environ add_ps1 add_pwd
  finish_prompt indicator d = do
    conn ← add_ps1 sq os.now indicator (variable sq (codes "NHI_PS1") d) d.conn
    conn' ← add_pwd sq os.now indicator (variable sq (codes "PWD") d) conn
    reverse_environ sq (record d { conn = checkpoint sq conn' })

  -- What `handle_kill_SIGRTMIN` does once the shell is found and its environment is read.
  unfoldable pub end_command : ℕ → Daemon sq → Option (Daemon sq)
  unfolding finish_prompt add_command add_exit_status
  end_command indicator d = do
    conn ←
        add_command sq os.now indicator (variable sq (codes "NHI_LAST_EXECUTED_COMMAND") d) d.conn
    conn' ← add_exit_status sq os.now indicator (variable sq (codes "NHI_EXIT_STATUS") d) conn
    let conn'' = add_indicator sq os.now indicator (add_finish_time sq os.now indicator conn')
    finish_prompt indicator (record d { conn = create_row sq os.now indicator conn'' })

  unfoldable pub handle_kill_sigrtmin : KillEvent → Daemon sq → Option (Daemon sq)
  unfolding end_command find_shell_loop
  handle_kill_sigrtmin e d =
      let found = find_shell_loop shells_max_entries 0 e.shell_pid d.shells in
      end_command found.0 (load_environ e.shell_pid found.1 d)

  unfoldable pub handle_child_creation : ℕ → Daemon sq → Option (Daemon sq)
  unfolding find_shell_loop add_start_time
  handle_child_creation shell_pid d = do
    let found = find_shell_loop shells_max_entries 0 shell_pid d.shells
    conn ← add_start_time sq os.now os.slack found.0 d.conn
    some (record d { conn = conn })

  unfoldable pub handle_shell_exit : ExitShellIndicatorEvent → Daemon sq → Daemon sq
  handle_shell_exit e d = record d {
    conn = checkpoint sq (meta_add_finish_time sq os.now e.indicator d.conn);
  }

  unfoldable pub handle_write : WriteEvent → Daemon sq → Daemon sq
  handle_write e d = record d { conn = add_output sq os.now e.indicator e.output d.conn }

  -- The key of the free entry, 256 if there is none; an update there is refused.
  unfoldable pub free_key : List Shell → ℕ
  free_key shells = elim (free_loop shell_pid_of shells_max_entries 0 shells) [
    | none ↦ shells_max_entries
    | some i ↦ i
  ]

  -- The tail of `handle_kill_SIGUSR`, once the terminal is read.
  unfoldable pub finish_sigusr : ℕ → ℕ → ℕ → ℕ → List ℕ → Daemon sq → Option (Daemon sq)
  unfolding finish_prompt
  finish_sigusr key shell_pid indicator address terminal d = do
    d' ← finish_prompt indicator d
    let helper : Shell = record {
      shell_pid = shell_pid;
      indicator = indicator;
      omit_write = os.uninitialised;
      environ_address = address;
      terminal = take 8 (terminal ++ 0 ∷ os.garbage);
      terminal_len = (length terminal + 255) % 256;
    }
    some (record d' { shells = bpf_map_update_elem d'.shells key helper })

  -- What the database gets first: the link in the parent's output, and the new table.
  unfoldable pub start_session : ℕ → ℕ → Connection sq → Option (Connection sq)
  unfolding create_table
  start_session parent_indicator indicator conn = do
    let conn' =
        if parent_indicator == 0
        then conn
        else add_output sq os.now parent_indicator
            (take 12 ((253 ∷ decimal indicator) ++ 0 ∷ os.garbage)) conn
    conn'' ← create_table sq os.now os.slack indicator conn'
    some (meta_create_row sq os.now indicator (create_row sq os.now indicator conn''))

  -- popen with the environment that __environ points to
  abbrev pub popen_here : List ℕ → Daemon sq → Option Line
  popen_here command d = elim d.environ [
    | none ↦ some (os.popen_line command)
    | some environ ↦ os.popen_with environ command
  ]

  -- What follows the popen for the name of the terminal.
  unfoldable pub with_terminal : ℕ → ℕ → ℕ → ℕ → Daemon sq → Line → Option (Daemon sq)
  with_terminal key shell_pid indicator address d not_opened =
      some
        (record d { conn = write_log sq (codes "popen at handle_kill_SIGUSR failed" ∷ []) d.conn })
  with_terminal key shell_pid indicator address d not_read =
      some
        (record d { conn = write_log sq (codes "fgets at handle_kill_SIGUSR failed" ∷ []) d.conn })
  with_terminal key shell_pid indicator address d (line text) =
      finish_sigusr key shell_pid indicator address (fgets 8 text) d

  -- The block that reads the name of the terminal, and what follows it.
  unfoldable pub read_terminal : ℕ → ℕ → ℕ → ℕ → Daemon sq → Option (Daemon sq)
  read_terminal key shell_pid indicator address d =
      let command =
        codes "ps -p " ++ (decimal shell_pid ++ codes " -o tty= | awk -F'/' '{ print $NF }'") in
      popen_here command d >>= with_terminal key shell_pid indicator address d

  -- What follows the loop over the shells, with the result of `get_shell_environ_address`.
  unfoldable pub add_shell : ℕ → ℕ → ℕ → ℕ × List Message → Daemon sq → Option (Daemon sq)
  add_shell key shell_pid indicator (address, messages) d =
      let d' = record d { conn = write_log sq messages d.conn } in
      if address == 0
      then some (record d' {
        conn =
            write_log sq (codes "get_shell_environ_address failed at handle_kill_SIGUSR" ∷ [])
              d'.conn;
      })
      else read_terminal key shell_pid indicator address (load_environ shell_pid address d')

  unfoldable pub handle_kill_sigusr : KillEvent → Daemon sq → Option (Daemon sq)
  unfolding start_session add_shell
  handle_kill_sigusr e d = do
    let indicator = get_indicator (os.now d.conn.ticks)
    conn ← start_session e.parent_shell_indicator indicator (tick sq os.now d.conn)
    add_shell (free_key d.shells) e.shell_pid indicator
        (get_shell_environ_address os e.shell_pid e.sig) (record d { conn = conn })

  -- What `handle_event` does for each record: its size and its signal choose.
  unfoldable pub handle_record : Event → Daemon sq → Option (Daemon sq)
  unfolding handle_kill_sigusr handle_kill_sigrtmin handle_child_creation handle_shell_exit
      handle_write
  handle_record (killed e) d =
      if e.sig == sigusr1 || e.sig == sigusr2
      then handle_kill_sigusr e d
      else if e.sig == sigrtmin
      then handle_kill_sigrtmin e d
      else some d
  handle_record (child_created shell_pid) d = handle_child_creation shell_pid d
  handle_record (shell_exited e) d = some (handle_shell_exit e d)
  handle_record (written e) d = some (handle_write e d)

  unfoldable pub handle_event : List ℕ → Daemon sq → Option (Daemon sq)
  unfolding event_of handle_record
  handle_event bytes d = handle_record (event_of bytes) d
