-- ===== src/Daemon/Tests/Sessions.antt =====
-- `handle_kill_SIGUSR` of daemon/src/nhi.c for the first bash that announces itself.
use nhi.Prelude.{◌+◌, ◌≡◌, ◌++◌, refl, [], ◌∷◌, ◌++◌, none, some, arith, replicate, codes}
use nhi.Common.{KillEvent, zero_shell, sigusr1}
use nhi.Kernel.Table.{find_pid}
use nhi.Kernel.Tests.{no_shells}
use nhi.Wire.{le_bytes, read_le}
use nhi.Daemon.Clock.{get_indicator}
use nhi.Daemon.Os.{Os, line, c_string, strip_prefix, has_prefix, getenv}
use nhi.Daemon.Environ.{
  get_shell_environ_address, checked_strtol, add_base_address, until_dash, get_shell_environ,
  environ_loop, pointers, is_kept,
}
use nhi.Daemon.Decimal.{decimal}
use nhi.Daemon.Statements.{create_table_query, sprintf_once}
use nhi.Daemon.Statements.Buffers.{Fits}
use nhi.Daemon.Store.{Store}
use nhi.Daemon.Handlers.{Daemon, handle_kill_sigusr}
use nhi.Daemon.Handlers.Session.{Reads, session_starts}
use nhi.Daemon.Tests.{sqlite, sqlite-Documented}
use nhi.Daemon.Tests.Handlers.{os, variables}

-- Every pipe and file has the same line, and every number is half of 4096.
abbrev pub system : Os
system = record os {
  popen_line = λ command. line (codes "0" ++ 10 ∷ []);
  popen_with = λ environ command. some (line (codes "0" ++ 10 ∷ []));
  file_line = λ path. line (codes "800-900 r--p" ++ 10 ∷ []);
  strtol_16 = λ digits. 2048;
}

abbrev empty_store : Store
empty_store = record { tables = λ j. none; meta = [] }

abbrev pub daemon : Daemon sqlite
daemon = record {
  conn = record { db = empty_store; log = []; ticks = 0 };
  shells = replicate 256 zero_shell;
  environ = none;
  original_environ = [];
}

abbrev pub announced : KillEvent
announced = record { shell_pid = 300; sig = sigusr1; parent_shell_indicator = 0 }

address_test : get_shell_environ_address system 300 sigusr1 ≡ (4096, [])
unfolding get_shell_environ_address checked_strtol add_base_address until_dash
address_test = refl

environ_test : get_shell_environ system 300 4096 none ≡ (some variables, [])
unfolding get_shell_environ environ_loop pointers is_kept has_prefix strip_prefix c_string read_le
    le_bytes
environ_test = refl

abbrev reads : Reads system none 300 sigusr1
reads = record {
  address = 4096;
  not_null = λ e. omega arith;
  finds = address_test;
  env = variables;
  loads = environ_test;
  text = codes "0" ++ 10 ∷ [];
  tty = refl;
  ps1 = codes "$ ";
  has_ps1 = unfold getenv strip_prefix in refl;
  pwd = codes "/home";
  has_pwd = unfold getenv strip_prefix in refl;
}

-- The text takes 154 bytes, of the 150 and 16 unused ones.
bash-Fits : Fits (150 + system.slack) (create_table_query (get_indicator (system.now 0)))
unfolding create_table_query sprintf_once decimal get_indicator
bash-Fits = omega arith

pub bash_registered :
    (d' : Daemon sqlite) × (handle_kill_sigusr sqlite system announced daemon ≡ some d')
unfolding get_indicator
bash_registered =
    let done =
      session_starts sqlite (λ s. s) system daemon announced [] reads sqlite-Documented no_shells
        (omega arith) (λ e. omega arith) (unfold find_pid in refl) refl bash-Fits refl in
    (done.0, done.1)
