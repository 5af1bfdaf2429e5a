-- ===== src/Daemon/Tests/Nested.antt =====
-- `handle_kill_SIGUSR` of daemon/src/nhi.c for a bash that was started from another one.
use nhi.Prelude.{
  ℕ, ◌≡◌, refl, [], ◌∷◌, ◌++◌, none, some, arith, replicate, codes, ◌==◌, if◌then◌else◌,
}
use nhi.Common.{KillEvent, zero_shell, sigusr1}
use nhi.Kernel.Tests.{bash}
use nhi.Daemon.Sqlite.{Sqlite}
use nhi.Daemon.Os.{c_string, has_prefix, strip_prefix, getenv}
use nhi.Daemon.Store.{Row, Store, empty_row}
use nhi.Daemon.Handlers.{Daemon}
use nhi.Daemon.Handlers.Session.{Reads}
use nhi.Daemon.Tests.{i, parsed, Reading, database}
use nhi.Wire.{le_bytes, read_le}
use nhi.Daemon.Environ.{
  get_shell_environ_address, checked_strtol, add_base_address, until_dash, get_shell_environ,
  environ_loop, pointers, is_kept,
}
use nhi.Daemon.Tests.Handlers.{variables}
use nhi.Daemon.Tests.Sessions.{system}

-- The indicator of the new session.
abbrev k : ℕ
k = 16500000050

abbrev read_two : Reading
read_two query bindings = elim (parsed i query bindings) [
  | some st ↦ some (i, st)
  | none ↦ elim (parsed k query bindings) [ none ↦ none | some st ↦ some (k, st) ]
]

abbrev two : Sqlite
two = database read_two

-- The bash runs `bash`.
abbrev command_row : Row
command_row = record empty_row { ps1 = some (codes "$ "); pwd = some (codes "/tmp") }

abbrev store : Store
store = record { tables = λ j. if j == i then some (command_row ∷ []) else none; meta = [] }

abbrev daemon : Daemon two
daemon = record {
  conn = record { db = store; log = []; ticks = 5 };
  shells = bash ∷ replicate 255 zero_shell;
  environ = none;
  original_environ = [];
}

abbrev announced : KillEvent
announced = record { shell_pid = 302; sig = sigusr1; parent_shell_indicator = i }

address_test : get_shell_environ_address system 302 sigusr1 ≡ (4096, [])
unfolding get_shell_environ_address checked_strtol add_base_address until_dash
address_test = refl

environ_test : get_shell_environ system 302 4096 none ≡ (some variables, [])
unfolding get_shell_environ environ_loop pointers is_kept has_prefix strip_prefix c_string read_le
    le_bytes
environ_test = refl

abbrev reads : Reads system none 302 sigusr1
reads = record {
  address = 4096;
  not_null = λ e. omega arith;
  finds = address_test;
  env = variables;
  loads = environ_test;
  text = codes "0" ++ 10 ∷ [];
  tty = refl;
  ps1 = codes "$ ";
  has_ps1 = unfold getenv strip_prefix in refl;
  pwd = codes "/home";
  has_pwd = unfold getenv strip_prefix in refl;
}
