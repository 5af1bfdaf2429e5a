-- ===== src/System/Shared.antt =====
-- daemon/src/nhi.bpf.c and daemon/src/nhi.c at work on the same map of shells: the kernel programs and the
-- handlers of the daemon, in every order.
use nhi.Prelude.{ℕ, ◌≡◌, ◌≢◌, Bool, true, ◌||◌, List, [], ◌∷◌, ◌++◌, some, ◌==◌}
use nhi.Common.{Event, killed, sigusr1, sigusr2}
use nhi.Kernel.Maps.{Maps, fresh_maps}
use nhi.Kernel.Kill.{kill_something_info}
use nhi.Kernel.Fork.{fork_tracepoint}
use nhi.Kernel.Exit.{do_exit}
use nhi.Kernel.Write.{Kernel, WriteCall, fdget_pos, ksys_write}
use nhi.Kernel.Steps.{IsNewChild, IsNewShell, Step}
use nhi.Kernel.Steps
use nhi.Wire.{encode}
use nhi.Wire.Laws.{IsSent}
use nhi.Daemon.Sqlite.{Sqlite}
use nhi.Daemon.Os.{Os}
use nhi.Daemon.Handlers.{Daemon, handle_event}

-- A run of a kernel program, with whatever it is given, for pids other than 0 and with a new process
-- that no entry of `children` has.
pub data Runs (maps : Maps) : Maps → Type 0 where
  kills :
      (room : Bool) (sig pid shell_pid : ℕ)
      → shell_pid ≢ 0
      → Runs maps (kill_something_info room sig pid shell_pid maps)
  forks :
      (room : Bool) (parent_pid child_pid : ℕ)
      → child_pid ≢ 0
      → IsNewChild child_pid maps
      → Runs maps (fork_tracepoint room parent_pid child_pid maps)
  ends : (room : Bool) (pid : ℕ) → pid ≢ 0 → Runs maps (do_exit room pid maps)
  looks_up : (fd_pos : ℕ) → Runs maps (fdget_pos fd_pos maps)
  writes : (kernel : Kernel) (call : WriteCall) → Runs maps (ksys_write kernel call maps)

-- The event of a shell that announces itself comes before the map has an entry for it.
abbrev pub IsNews : Event → Maps → Type 0
IsNews (killed k) maps =
    ((k.sig == sigusr1 || k.sig == sigusr2) ≡ true)
    → (k.shell_pid ≢ 0) × IsNewShell k.shell_pid maps
IsNews _ maps = Unit

module _ (sq : Sqlite) (os : Os) where
  -- The maps, the daemon, and the events that it has handled.
  pub record World : Type 0 where
    pub maps : Maps
    pub daemon : Daemon sq
    pub handled : List Event

  -- A program runs, or the daemon handles the next event on the map of shells as it is.
  pub data WorldStep (w : World) : World → Type 0 where
    runs : {maps : Maps} → Runs w.maps maps → WorldStep w (record w { maps = maps })
    handles :
        (e : Event) (rest : List Event) (d' : Daemon sq)
        → w.maps.ring_buffer ≡ w.handled ++ e ∷ rest
        → IsSent e
        → IsNews e w.maps
        → handle_event sq os (encode e) (record w.daemon { shells = w.maps.shells }) ≡ some d'
        → WorldStep w (record {
          maps = record w.maps { shells = d'.shells };
          daemon = d';
          handled = w.handled ++ e ∷ [];
        })

  pub data Shared : World → Type 0 where
    begin : (d : Daemon sq) → Shared (record { maps = fresh_maps; daemon = d; handled = [] })
    follow : {w w' : World} → Shared w → WorldStep w w' → Shared w'
