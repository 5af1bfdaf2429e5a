-- ===== src/Wire/Tests.antt =====
-- The layout of a kill event.
use nhi.Prelude.{arith}
use nhi.Common.{Event, killed, sigusr1}
use nhi.Wire.Layout.{IsLaidOut, encode-IsLaidOut}

abbrev prompt : Event
prompt = killed (record { shell_pid = 300; sig = sigusr1; parent_shell_indicator = 16500000000 })

encode-IsLaidOut_example : IsLaidOut prompt
encode-IsLaidOut_example = encode-IsLaidOut prompt (omega arith, omega arith, omega arith)
