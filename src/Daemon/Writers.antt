-- ===== src/Daemon/Writers.antt =====
-- The functions of daemon/src/sqlite.c that change the database. `now` gives what the clock shows at
-- each read of it. A null pointer for a text is `none`: strlen of it ends the daemon; and so is a text
-- that runs over the end of its array. Those that have no test for it fit their arrays for indicators
-- of eleven digits (Statements/Buffers).
pub mod Effects
pub mod Logged
pub mod Calls
use nhi.Prelude.{ℕ, ◌+◌, List, [], ◌∷◌, Option, none, some, take, codes, ◌>>=◌}
use nhi.Daemon.Clock.{Timeval, get_indicator}
use nhi.Daemon.Decimal.{decimal}
use nhi.Daemon.Sqlite.{Sqlite, Connection, text, blob, int64, execute}
use nhi.Daemon.Statements.{
  into, create_table_query, create_row_query, add_ps1_query, add_command_query, add_output_query,
  add_exit_status_query, add_pwd_query, add_start_time_query, add_finish_time_query,
  add_indicator_query, meta_create_row_query, meta_add_finish_time_query,
}

abbrev pub CString : Type 0
CString = Option (List ℕ)

module _ (sq : Sqlite) (now : ℕ → Timeval) where
  -- The array has 150 bytes, which do not hold the text for an indicator of eleven digits.
  unfoldable pub create_table : ℕ → ℕ → Connection sq → Option (Connection sq)
  create_table slack indicator conn = do
    query ← into 150 slack (create_table_query indicator)
    some (execute sq query [] conn)

  unfoldable pub create_row : ℕ → Connection sq → Connection sq
  create_row indicator conn = execute sq (create_row_query indicator) [] conn

  unfoldable pub add_ps1 : ℕ → CString → Connection sq → Option (Connection sq)
  add_ps1 indicator none conn = none
  add_ps1 indicator (some ps1) conn =
      some (execute sq (add_ps1_query indicator) (text 1 ps1 ∷ []) conn)

  unfoldable pub add_command : ℕ → CString → Connection sq → Option (Connection sq)
  add_command indicator none conn = none
  add_command indicator (some command) conn =
      some (execute sq (add_command_query indicator) (text 1 command ∷ []) conn)

  unfoldable pub add_output : ℕ → List ℕ → Connection sq → Connection sq
  add_output indicator output conn =
      execute sq (add_output_query indicator) (blob 1 output ∷ []) conn

  unfoldable pub add_exit_status : ℕ → CString → Connection sq → Option (Connection sq)
  add_exit_status indicator none conn = none
  add_exit_status indicator (some exit_status) conn =
      some (execute sq (add_exit_status_query indicator) (text 1 exit_status ∷ []) conn)

  unfoldable pub add_pwd : ℕ → CString → Connection sq → Option (Connection sq)
  add_pwd indicator none conn = none
  add_pwd indicator (some pwd) conn =
      some (execute sq (add_pwd_query indicator) (text 1 pwd ∷ []) conn)

  -- The connection after the clock is read once more.
  abbrev pub tick : Connection sq → Connection sq
  tick conn = record conn { ticks = conn.ticks + 1 }

  -- time(0)
  abbrev pub time_now : Connection sq → ℕ
  time_now conn = (now conn.ticks).tv_sec

  -- The array has 100 bytes, which do not hold the text for an indicator of eleven digits either.
  unfoldable pub add_start_time : ℕ → ℕ → Connection sq → Option (Connection sq)
  add_start_time slack indicator conn = do
    query ← into 100 slack (add_start_time_query indicator)
    some (execute sq query (int64 1 (time_now conn) ∷ []) (tick conn))

  unfoldable pub add_finish_time : ℕ → Connection sq → Connection sq
  add_finish_time indicator conn =
      execute sq (add_finish_time_query indicator) (int64 1 (time_now conn) ∷ []) (tick conn)

  unfoldable pub add_indicator : ℕ → Connection sq → Connection sq
  add_indicator indicator conn =
      let command_indicator = get_indicator (now conn.ticks) in
      execute sq (add_indicator_query indicator) (int64 1 command_indicator ∷ []) (tick conn)

  -- The name is the first 11 bytes of the decimal indicator.
  unfoldable pub meta_create_row : ℕ → Connection sq → Connection sq
  meta_create_row indicator conn =
      execute sq meta_create_row_query
        (int64 1 indicator ∷ text 2 (take 11 (decimal indicator)) ∷ int64 3 (time_now conn) ∷ [])
        (tick conn)

  unfoldable pub meta_add_finish_time : ℕ → Connection sq → Connection sq
  meta_add_finish_time indicator conn =
      execute sq meta_add_finish_time_query (int64 1 (time_now conn) ∷ int64 2 indicator ∷ [])
        (tick conn)
