-- ===== src/Kernel/Steps.antt =====
-- All that happens to the maps, as steps: a run of each program of daemon/src/nhi.bpf.c, with whatever
-- it is given, and the entry that `handle_kill_SIGUSR` of daemon/src/nhi.c adds for a shell. A new
-- process has a pid that no entry of `children` has, and a new shell one that no entry of `shells`
-- has; no pid is 0.
pub mod Keeps
pub mod Held
pub mod Fields
pub mod Output
pub mod Sent
pub mod Writes
pub mod Reachable
pub mod Tests
use nhi.Prelude.{ℕ, ◌≡◌, ◌≢◌, Bool, some, get_elem?}
use nhi.Common.{Shell, Child, shell_pid_of, shells_max_entries}
use nhi.Kernel.Maps.{Maps, fresh_maps, bpf_map_lookup_elem, bpf_map_update_elem}
use nhi.Kernel.Scan.{free_loop}
use nhi.Kernel.Kill.{kill_something_info}
use nhi.Kernel.Fork.{fork_tracepoint}
use nhi.Kernel.Exit.{do_exit}
use nhi.Kernel.Write.{Kernel, WriteCall, fdget_pos, ksys_write}

-- No entry has the pid.
abbrev pub IsNewChild : ℕ → Maps → Type 0
IsNewChild pid maps =
    (i : ℕ) (c : Child) → bpf_map_lookup_elem maps.children i ≡ some c → c.child_pid ≢ pid

abbrev pub IsNewShell : ℕ → Maps → Type 0
IsNewShell pid maps =
    (i : ℕ) (s : Shell) → bpf_map_lookup_elem maps.shells i ≡ some s → s.shell_pid ≢ pid

pub data Step (maps : Maps) : Maps → Type 0 where
  killed :
      (room : Bool) (sig pid shell_pid : ℕ)
      → shell_pid ≢ 0
      → Step maps (kill_something_info room sig pid shell_pid maps)
  forked :
      (room : Bool) (parent_pid child_pid : ℕ)
      → child_pid ≢ 0
      → IsNewChild child_pid maps
      → Step maps (fork_tracepoint room parent_pid child_pid maps)
  ended : (room : Bool) (pid : ℕ) → pid ≢ 0 → Step maps (do_exit room pid maps)
  looked_up : (fd_pos : ℕ) → Step maps (fdget_pos fd_pos maps)
  wrote : (kernel : Kernel) (call : WriteCall) → Step maps (ksys_write kernel call maps)
  registered :
      (shell : Shell) (i : ℕ)
      → shell.shell_pid ≢ 0
      → IsNewShell shell.shell_pid maps
      → free_loop shell_pid_of shells_max_entries 0 maps.shells ≡ some i
      → Step maps (record maps { shells = bpf_map_update_elem maps.shells i shell })

-- What the programs can come to from the maps as they are created.
pub data Reach : Maps → Type 0 where
  start : Reach fresh_maps
  next : {maps maps' : Maps} → Reach maps → Step maps maps' → Reach maps'
