-- ===== src/Daemon/Writers/Calls.antt =====
-- The functions that daemon/src/sqlite.h declares, as one type of calls, and what becomes of each of
-- them whatever SQLite answers.
use nhi.Prelude.{ℕ, ◌+◌, ◌<◌, ◌≡◌, ◌⊎◌, List, Option, none, some, length}
use nhi.Daemon.Clock.{Timeval}
use nhi.Daemon.Sqlite.{Sqlite, Connection}
use nhi.Daemon.Statements.{create_table_query, add_start_time_query}
use nhi.Daemon.Writers.{
  CString, create_table, create_row, add_ps1, add_command, add_output, add_exit_status, add_pwd,
  add_start_time, add_finish_time, add_indicator, meta_create_row, meta_add_finish_time,
}
use nhi.Daemon.Writers.Logged.{Logged}

pub data Call : Type 0 where
  create_table_call create_row_call : ℕ → Call
  add_ps1_call add_command_call : ℕ → CString → Call
  add_output_call : ℕ → List ℕ → Call
  add_exit_status_call add_pwd_call : ℕ → CString → Call
  add_start_time_call add_finish_time_call add_indicator_call : ℕ → Call
  meta_create_row_call meta_add_finish_time_call : ℕ → Call

-- How many parameters its statement has.
abbrev pub parameters : Call → ℕ
parameters (create_table_call i) = 0
parameters (create_row_call i) = 0
parameters (add_ps1_call i v) = 1
parameters (add_command_call i v) = 1
parameters (add_output_call i v) = 1
parameters (add_exit_status_call i v) = 1
parameters (add_pwd_call i v) = 1
parameters (add_start_time_call i) = 1
parameters (add_finish_time_call i) = 1
parameters (add_indicator_call i) = 1
parameters (meta_create_row_call i) = 3
parameters (meta_add_finish_time_call i) = 2

-- How often it reads the clock for a value.
abbrev pub reads : Call → ℕ
reads (create_table_call i) = 0
reads (create_row_call i) = 0
reads (add_ps1_call i v) = 0
reads (add_command_call i v) = 0
reads (add_output_call i v) = 0
reads (add_exit_status_call i v) = 0
reads (add_pwd_call i v) = 0
reads (add_start_time_call i) = 1
reads (add_finish_time_call i) = 1
reads (add_indicator_call i) = 1
reads (meta_create_row_call i) = 1
reads (meta_add_finish_time_call i) = 1

-- The text that the call is given is a null pointer.
abbrev pub IsNull : CString → Type 0
IsNull v = v ≡ none

abbrev pub IsNullCall : Call → Type 0
IsNullCall (create_table_call i) = ⊥
IsNullCall (create_row_call i) = ⊥
IsNullCall (add_ps1_call i v) = IsNull v
IsNullCall (add_command_call i v) = IsNull v
IsNullCall (add_output_call i v) = ⊥
IsNullCall (add_exit_status_call i v) = IsNull v
IsNullCall (add_pwd_call i v) = IsNull v
IsNullCall (add_start_time_call i) = ⊥
IsNullCall (add_finish_time_call i) = ⊥
IsNullCall (add_indicator_call i) = ⊥
IsNullCall (meta_create_row_call i) = ⊥
IsNullCall (meta_add_finish_time_call i) = ⊥

module _ (sq : Sqlite) (now : ℕ → Timeval) (slack : ℕ) where
  -- What a call leaves; `none` where it ends the daemon or has no defined effect.
  abbrev pub run : Call → Connection sq → Option (Connection sq)
  run (create_table_call i) conn = create_table sq now slack i conn
  run (create_row_call i) conn = some (create_row sq now i conn)
  run (add_ps1_call i v) conn = add_ps1 sq now i v conn
  run (add_command_call i v) conn = add_command sq now i v conn
  run (add_output_call i v) conn = some (add_output sq now i v conn)
  run (add_exit_status_call i v) conn = add_exit_status sq now i v conn
  run (add_pwd_call i v) conn = add_pwd sq now i v conn
  run (add_start_time_call i) conn = add_start_time sq now slack i conn
  run (add_finish_time_call i) conn = some (add_finish_time sq now i conn)
  run (add_indicator_call i) conn = some (add_indicator sq now i conn)
  run (meta_create_row_call i) conn = some (meta_create_row sq now i conn)
  run (meta_add_finish_time_call i) conn = some (meta_add_finish_time sq now i conn)

  -- The text that it prints, and its NUL, run over the array on the stack and the bytes behind it.
  abbrev pub Overruns : Call → Type 0
  Overruns (create_table_call i) = 150 + slack < length (create_table_query i) + 1
  Overruns (add_start_time_call i) = 100 + slack < length (add_start_time_query i) + 1
  Overruns (create_row_call i) = ⊥
  Overruns (add_ps1_call i v) = ⊥
  Overruns (add_command_call i v) = ⊥
  Overruns (add_output_call i v) = ⊥
  Overruns (add_exit_status_call i v) = ⊥
  Overruns (add_pwd_call i v) = ⊥
  Overruns (add_finish_time_call i) = ⊥
  Overruns (add_indicator_call i) = ⊥
  Overruns (meta_create_row_call i) = ⊥
  Overruns (meta_add_finish_time_call i) = ⊥

  -- A call comes to its end, or fails for one of two reasons.
  abbrev pub CallOutcome : Call → Connection sq → Option (Connection sq) → Type 0
  CallOutcome c conn none = IsNullCall c ⊎ Overruns c
  CallOutcome c conn (some conn') =
      (¬ IsNullCall c) × (¬ Overruns c) × Logged sq (2 + parameters c) (reads c) conn conn'
