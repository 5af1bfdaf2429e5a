-- ===== src/Daemon/Tests/Handlers.antt =====
-- The daemon of daemon/src/nhi.c at concrete states: one session with one row, and a bash whose
-- environment has the four variables.
use nhi.Prelude.{
  ℕ, ◌+◌, ◌<◌, ◌≤◌, ◌≡◌, refl, List, [], ◌∷◌, ◌++◌, Option, none, some, arith, length, replicate,
  codes, ◌==◌, if◌then◌else◌,
}
use nhi.Common.{KillEvent, killed, zero_shell, sigrtmin}
use nhi.Kernel.Table.{find_pid}
use nhi.Kernel.Tests.{bash, one_shell}
use nhi.Wire.{le_bytes, read_le, encode, event_of}
use nhi.Wire.Laws.{event_of-encode}
use nhi.Daemon.Clock.{Timeval, get_indicator, microseconds, get_indicator_order}
use nhi.Daemon.Statements.{
  create_table_query, create_row_query, add_ps1_query, add_command_query, add_output_query,
  add_exit_status_query, add_pwd_query, add_start_time_query, add_finish_time_query,
  add_indicator_query,
}
use nhi.Daemon.Statements.Buffers.{Fits, queries_fit, queries_overflow}
use nhi.Daemon.Os.{Os, not_opened, c_string, strip_prefix, has_prefix, getenv}
use nhi.Daemon.Environ.{get_shell_environ, environ_loop, pointers, is_kept}
use nhi.Daemon.Store.{Row, Store, empty_row}
use nhi.Daemon.Handlers.{Daemon, handle_kill_sigrtmin}
use nhi.Daemon.Handlers.Rows.{with_rows, complete, prompt_row}
use nhi.Daemon.Handlers.Prompt.{command_ends}
use nhi.Daemon.Handlers.Failure.{sigrtmin_unreadable}
use nhi.Daemon.Tests.{i, sqlite, sqlite-Documented}

abbrev first_row : Row
first_row = record empty_row { ps1 = some (codes "$ "); pwd = some (codes "/tmp") }

abbrev store : Store
store = record {
  tables = λ j. if j == i then some (first_row ∷ []) else none;
  meta =
      record {
        indicator = i;
        name = codes "16500000000";
        start_time = 1650000000;
        finish_time = none;
      }
      ∷ [];
}

-- What stands in the memory of the bash.
abbrev memory_at : ℕ → Option (List ℕ)
memory_at address =
    if address == 4096
    then some (le_bytes 8 8192)
    else if address == 8192
    then some (le_bytes 8 64 ++ (le_bytes 8 65 ++ (le_bytes 8 66 ++ le_bytes 8 67)))
    else if address == 64
    then some (codes "NHI_PS1=$ " ++ 0 ∷ [])
    else if address == 65
    then some (codes "NHI_EXIT_STATUS=0" ++ 0 ∷ [])
    else if address == 66
    then some (codes "NHI_LAST_EXECUTED_COMMAND=ls" ++ 0 ∷ [])
    else if address == 67
    then some (codes "PWD=/home" ++ 0 ∷ [])
    else none

abbrev pub os : Os
os = record {
  now = λ n. record { tv_sec = 1650000000 + n; tv_usec = 0 };
  popen_line = λ command. not_opened;
  popen_with = λ environ command. some not_opened;
  file_line = λ path. not_opened;
  strtol_16 = λ digits. 0;
  process_vm_readv = λ pid address size. memory_at address;
  uninitialised = 1;
  slack = 16;
  garbage = [];
}

-- A system where the memory of no process can be read.
abbrev closed_os : Os
closed_os = record os { process_vm_readv = λ pid address size. none }

abbrev daemon : Daemon sqlite
daemon = record {
  conn = record { db = store; log = []; ticks = 0 };
  shells = bash ∷ replicate 255 zero_shell;
  environ = none;
  original_environ = codes "PWD=/" ∷ [];
}

abbrev pub variables : List (List ℕ)
variables =
    codes "NHI_PS1=$ "
    ∷ codes "NHI_EXIT_STATUS=0"
    ∷ codes "NHI_LAST_EXECUTED_COMMAND=ls"
    ∷ codes "PWD=/home"
    ∷ []

environ_test : get_shell_environ os 300 4096 none ≡ (some variables, [])
unfolding get_shell_environ environ_loop pointers is_kept has_prefix strip_prefix c_string read_le
    le_bytes
environ_test = refl

abbrev ended : KillEvent
ended = record { shell_pid = 300; sig = sigrtmin; parent_shell_indicator = 0 }

command_ends_example :
    (d' : Daemon sqlite) × (handle_kill_sigrtmin sqlite os ended daemon ≡ some d')
    × (d'.conn.db
        ≡ with_rows i
            (([]
                ++ complete
                    (codes "ls")
                    (codes "0")
                    1650000000
                    (get_indicator (record { tv_sec = 1650000001; tv_usec = 0 }))
                    first_row
                  ∷ [])
              ++ prompt_row (codes "$ ") (codes "/home") ∷ [])
            store)
    × (d'.conn.log ≡ [])
    × (d'.environ ≡ none)
    × (d'.shells ≡ daemon.shells)
command_ends_example =
    command_ends sqlite (λ s. s) os daemon ended (bash ∷ []) bash variables [] first_row
      (codes "ls") (codes "0") (codes "$ ") (codes "/home") sqlite-Documented one_shell
      (unfold find_pid in refl) refl environ_test (unfold getenv strip_prefix in refl)
      (unfold getenv strip_prefix in refl) (unfold getenv strip_prefix in refl)
      (unfold getenv strip_prefix in refl)

sigrtmin_unreadable_example : handle_kill_sigrtmin sqlite closed_os ended daemon ≡ none
sigrtmin_unreadable_example =
    sigrtmin_unreadable sqlite closed_os daemon ended (λ address. refl) refl

event_of-encode_example : event_of (encode (killed ended)) ≡ killed ended
event_of-encode_example = event_of-encode (killed ended) (omega arith, omega arith, omega arith)

abbrev noon : Timeval
noon = record { tv_sec = 1650000000; tv_usec = 950000 }

abbrev later : Timeval
later = record { tv_sec = 1650000001; tv_usec = 60000 }

get_indicator_order_example :
    (get_indicator noon ≤ get_indicator later)
    × (microseconds noon + 100000 ≤ microseconds later → get_indicator noon < get_indicator later)
get_indicator_order_example =
    get_indicator_order noon later (omega arith) (omega arith) (omega arith)

queries_fit_example :
    Fits 100 (create_row_query i)
    × Fits 100 (add_ps1_query i)
    × Fits 100 (add_command_query i)
    × Fits 100 (add_output_query i)
    × Fits 100 (add_exit_status_query i)
    × Fits 100 (add_pwd_query i)
    × Fits 100 (add_finish_time_query i)
    × Fits 100 (add_indicator_query i)
queries_fit_example = queries_fit i (omega arith, omega arith)

queries_overflow_example :
    (length (create_table_query i) + 1 ≡ 150 + 4) × (length (add_start_time_query i) + 1 ≡ 100 + 15)
queries_overflow_example = queries_overflow i (omega arith, omega arith)
