-- ===== src/Kernel/Steps/Sent.antt =====
-- Whatever the programs of daemon/src/nhi.bpf.c put into the ring buffer, in whichever order they run,
-- the daemon can read.
use nhi.Prelude.{
  ℕ, zero, suc, ◌<◌, ◌^◌, ◌≡◌, refl, ◌∙◌, Bool, List, All, replicate, arith, length-replicate,
}
use nhi.Common.{zero_shell, zero_child}
use nhi.Kernel.Maps.{Maps, Scratch, fresh_maps}
use nhi.Kernel.Scan.Every.{All-set}
use nhi.Kernel.Kill.{kill_something_info}
use nhi.Kernel.Fork.{add_new_child_pid, add_if_parent_in_children, fork_tracepoint}
use nhi.Kernel.Exit.{remove_child, finish_shell_removal, remove_shell, do_exit}
use nhi.Kernel.Write.{fdget_pos}
use nhi.Kernel.Write.Sizes.{IsReadable}
use nhi.Wire.Laws.{IsSent}
use nhi.Kernel.Steps.{Step, killed, forked, ended, looked_up, wrote, registered, Reach, start, next}
use nhi.Kernel.Steps.Fields.{IsShell, IsChild, kill-IsTyped, fork-IsTyped, exit-IsTyped}
use nhi.Kernel.Steps.Output.{IsScratch, IsKept, same_entries, ksys_write-IsKept}

-- What a step is given is within its type: pids and signals are of 32 bits and indicators of 64, and
-- the memory that a write is from is there.
abbrev pub IsGiven : {maps maps' : Maps} → Step maps maps' → Type 0
IsGiven (killed room sig pid shell_pid nz) = (sig < 256 ^ 4) × (shell_pid < 256 ^ 4)
IsGiven (forked room parent_pid child_pid nz new) = parent_pid < 256 ^ 4
IsGiven (ended room pid nz) = Unit
IsGiven (looked_up fd_pos) = Unit
IsGiven (wrote kernel call) = IsReadable call.buf call.count
IsGiven (registered shell i nz new e) = shell.indicator < 256 ^ 8

-- Each step of the way.
abbrev pub AllGiven : {maps : Maps} → Reach maps → Type 0
AllGiven start = Unit
AllGiven (next r s) = AllGiven r × IsGiven s

module _ (maps : Maps) where
  kill_scratch :
      (room : Bool) (sig pid shell_pid : ℕ)
      → (kill_something_info room sig pid shell_pid maps).ksys_write_event ≡ maps.ksys_write_event
  unfolding kill_something_info
  kill_scratch room sig pid shell_pid = ground arith

  fork_scratch :
      (room : Bool) (parent_pid child_pid : ℕ)
      → (fork_tracepoint room parent_pid child_pid maps).ksys_write_event ≡ maps.ksys_write_event
  unfolding fork_tracepoint add_if_parent_in_children add_new_child_pid
  fork_scratch room parent_pid child_pid = ground arith

  exit_scratch :
      (room : Bool) (pid : ℕ) → (do_exit room pid maps).ksys_write_event ≡ maps.ksys_write_event
  unfolding do_exit remove_shell finish_shell_removal remove_child
  exit_scratch room pid = ground arith

All-replicate {ℓ κ} : {A : Type ℓ} (P : A → Type κ) (n : ℕ) (x : A) → P x → All P (replicate n x)
All-replicate P zero x p = tt
All-replicate P (suc n) x p = (p, All-replicate P n x p)

fresh-IsKept : IsKept fresh_maps
fresh-IsKept = (
  record {
    shells = All-replicate IsShell 256 zero_shell (omega arith);
    children = All-replicate IsChild 1024 zero_child (omega arith);
    events = tt;
  },
  (record { indicator = 0; output = replicate 32760 0 }, refl, length-replicate {A = ℕ} 32760 0),
)

same_scratch : {m m' : List Scratch} → IsScratch m → m' ≡ m → IsScratch m'
same_scratch (scratch, e, len) same = (scratch, same ∙ e, len)

Step-IsKept : {maps maps' : Maps} → IsKept maps → (s : Step maps maps') → IsGiven s → IsKept maps'
unfolding fdget_pos
Step-IsKept {maps} (t, sc) (killed room sig pid shell_pid nz) (a, b) = (
  kill-IsTyped t room sig pid shell_pid a b,
  same_scratch sc (kill_scratch maps room sig pid shell_pid),
)
Step-IsKept {maps} (t, sc) (forked room parent_pid child_pid nz new) h = (
  fork-IsTyped t room parent_pid child_pid h,
  same_scratch sc (fork_scratch maps room parent_pid child_pid),
)
Step-IsKept {maps} (t, sc) (ended room pid nz) h =
    (exit-IsTyped t room pid, same_scratch sc (exit_scratch maps room pid))
Step-IsKept {maps} (t, sc) (looked_up fd_pos) h =
    (same_entries {maps = maps} {maps' = fdget_pos fd_pos maps} refl refl refl t, sc)
Step-IsKept {maps} kept (wrote kernel call) h = ksys_write-IsKept kernel call maps h kept
Step-IsKept {maps} (t, sc) (registered shell i nz new e) h = (
  record {
    shells = All-set IsShell maps.shells i shell t.shells h;
    children = t.children;
    events = t.events;
  },
  sc,
)

Reach-IsKept : {maps : Maps} (r : Reach maps) → AllGiven r → IsKept maps
Reach-IsKept start g = fresh-IsKept
Reach-IsKept (next r s) (g, h) = Step-IsKept (Reach-IsKept r g) s h

-- Whatever programs run one after the other from the maps as they are created, and whatever shells are
-- registered in between, while all that they are given is within its type: every event that has been
-- put into the ring buffer has its fields within their types, and if it is a write, a size that the
-- daemon takes for that of a write.
pub Reach-IsSent : {maps : Maps} (r : Reach maps) → AllGiven r → All IsSent maps.ring_buffer
Reach-IsSent r g = (Reach-IsKept r g).0.events
