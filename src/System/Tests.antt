-- ===== src/System/Tests.antt =====
-- A bash that is registered, forks and ends, and the daemon that follows it; and what a session
-- writes, up to what is printed of it.
use mathlib.Core.List.{flatten}
use nhi.Prelude.{
  ℕ, ◌≡◌, refl, List, [], ◌∷◌, append-nil, codes, none, some, true, false, arith, ◌==◌,
  if◌then◌else◌, map,
}
use nhi.Daemon.Main.{main_loop, running}
use nhi.Daemon.Main.Delivery.{rounds_of, still_running, handle_all}
use nhi.Daemon.Store.{Store, empty_row}
use nhi.Daemon.Handlers.{Daemon}
use nhi.Daemon.Tests.{i, sqlite, sqlite-Documented}
use nhi.Daemon.Tests.Sessions.{system, daemon}
use nhi.Common.{nhid_hash, sigusr1}
use nhi.Kernel.Maps.{Maps, fresh_maps}
use nhi.Kernel.Kill.{kill_something_info}
use nhi.Kernel.Steps.Tests.{ended_maps, ended_Reach, ended_AllGiven}
use nhi.System.Shared.{Shared}
use nhi.Cli.Printing.{prints, print_output}
use nhi.Cli.Printing.Recorded.{stdout, stderr}
use nhi.System.{daemon_follows}
use nhi.System.Printed.{StreamWrite, event_of_write, shown_writes, writes_printed}

daemon_follows_example :
    main_loop sqlite system (rounds_of (ended_maps.ring_buffer ∷ [] ∷ [])) daemon
    ≡ still_running (handle_all sqlite system ended_maps.ring_buffer daemon)
unfolding flatten
daemon_follows_example =
    daemon_follows sqlite system ended_Reach ended_AllGiven (ended_maps.ring_buffer ∷ [] ∷ [])
      (append-nil ended_maps.ring_buffer) daemon

abbrev one_session : Store
one_session = record { tables = λ j. if j == i then some (empty_row ∷ []) else none; meta = [] }

abbrev follower : Daemon sqlite
follower = record daemon { conn = record { db = one_session; log = []; ticks = 0 } }

abbrev stream_writes : List StreamWrite
stream_writes = (stdout, codes "total") ∷ (stderr, codes "ls: no") ∷ []

writes_printed_example :
    (d' : Daemon sqlite) × (output : List ℕ) × (main_loop sqlite system
        (rounds_of (map (event_of_write i) stream_writes ∷ []))
        follower
      ≡ running d')
    × (d'.conn.db.tables i ≡ some (record empty_row { output = output } ∷ []))
    × (print_output false true (λ child. prints []) output []
        ≡ prints (shown_writes false true (λ child. prints []) stream_writes))
unfolding flatten
writes_printed_example =
    writes_printed sqlite (λ s. s) system i stream_writes
      (map (event_of_write i) stream_writes ∷ []) follower [] empty_row false true
      (λ child. prints []) [] sqlite-Documented refl
      (
        (
          omega arith,
          record { long = omega arith; not_kill = λ e. omega arith; fits = omega arith },
        ),
        (
          (
            omega arith,
            record { long = omega arith; not_kill = λ e. omega arith; fits = omega arith },
          ),
          tt,
        ),
      )
      (
        (omega arith, (omega arith, (omega arith, (omega arith, (omega arith, tt))))),
        (
          (
            omega arith,
            (omega arith, (omega arith, (omega arith, (omega arith, (omega arith, tt))))),
          ),
          tt,
        ),
      )
      refl refl

-- The hook of a bash sends it SIGUSR1.
abbrev announced_maps : Maps
announced_maps = kill_something_info true sigusr1 nhid_hash 300 fresh_maps
