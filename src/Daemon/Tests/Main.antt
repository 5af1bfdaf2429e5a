-- ===== src/Daemon/Tests/Main.antt =====
-- A start in which all goes well, two rounds of the loop, and a line of the log.
use mathlib.Core.List.{flatten}
use nhi.Prelude.{ℕ, ◌+◌, ◌≡◌, true, List, [], ◌∷◌, none, some, arith, length, All}
use nhi.Common.{Event, killed, child_created}
use nhi.Wire.Laws.{IsSent}
use nhi.Daemon.Main.Delivery.{rounds_of, still_running, handle_all, main_loop_delivers}
use nhi.Daemon.Log.{Tm, date_of, date_of_fits}
use nhi.Daemon.Tests.{sqlite}
use nhi.Daemon.Tests.Sessions.{system, daemon, announced}
use nhi.Daemon.Main.{Opening, Libbpf, start, main_loop}
use nhi.Daemon.Main.Laws.{Outcome, start-Outcome}

abbrev libbpf : Libbpf
libbpf = record {
  Object = List ℕ;
  Program = List ℕ;
  RingBuffer = ℕ;
  open_file = λ path. some path;
  load = λ object. true;
  find_program_by_name = λ object name. some name;
  attach = λ program. true;
  find_map_fd_by_name = λ object name. length name;
  ring_buffer_new = λ fd. some fd;
}

abbrev noon : Tm
noon = record { tm_year = 122; tm_mon = 4; tm_mday = 7; tm_hour = 12; tm_min = 0; tm_sec = 9 }

noon_test : length (date_of noon) + 1 ≡ 20
noon_test = date_of_fits noon (omega arith)

abbrev opening : Opening sqlite
opening = record {
  open_db = λ path. (none, record { tables = λ j. none; meta = [] });
  wal_autocheckpoint = λ db frames. (none, db);
}

start-Outcome_example : Outcome sqlite libbpf (start sqlite libbpf opening)
start-Outcome_example = start-Outcome sqlite libbpf opening

abbrev batches : List (List Event)
batches = (killed announced ∷ child_created 300 ∷ []) ∷ [] ∷ (child_created 301 ∷ []) ∷ []

batches-IsSent : All (All IsSent) batches
batches-IsSent =
    (((omega arith, omega arith, omega arith), (omega arith, tt)), (tt, ((omega arith, tt), tt)))

main_loop_delivers_example :
    main_loop sqlite system (rounds_of batches) daemon
    ≡ still_running (handle_all sqlite system (flatten batches) daemon)
main_loop_delivers_example = main_loop_delivers sqlite system batches daemon batches-IsSent
