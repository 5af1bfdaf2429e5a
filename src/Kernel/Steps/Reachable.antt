-- ===== src/Kernel/Steps/Reachable.antt =====
-- Every order in which the programs of daemon/src/nhi.bpf.c and the entries of new shells can come.
use mathlib.Core.List.{Nodup-nil}
use nhi.Prelude.{ℕ, refl, [], replicate, arith}
use nhi.Common.{
  zero_shell, zero_child, shell_pid_of, child_pid_of, shells_max_entries, children_max_entries,
}
use nhi.Kernel.Table.{IsTable}
use nhi.Kernel.Maps.{Maps, fresh_maps}
use nhi.Kernel.Steps.{Step, killed, forked, ended, looked_up, wrote, registered, Reach, start, next}
use nhi.Kernel.Steps.Keeps.{IsTracked, kill-IsTracked, fork-IsTracked, exit-IsTracked}
use nhi.Kernel.Steps.Writes.{same_tables, ksys_write-IsTracked, registered-IsTracked}
use nhi.Kernel.Write.{fdget_pos}

fresh-IsTable {ℓ} :
    {A : Type ℓ} (pid_of : A → ℕ) (empty : A) (size : ℕ)
    → IsTable pid_of empty size (replicate size empty) []
fresh-IsTable pid_of empty size = record {
  spare = size;
  layout = refl;
  total = omega arith;
  used = tt;
  distinct = Nodup-nil;
}

fresh-IsTracked : IsTracked fresh_maps
fresh-IsTracked = (
  [],
  [],
  record {
    shells = fresh-IsTable shell_pid_of zero_shell shells_max_entries;
    children = fresh-IsTable child_pid_of zero_child children_max_entries;
  },
)

Step-IsTracked : {maps maps' : Maps} → IsTracked maps → Step maps maps' → IsTracked maps'
Step-IsTracked t (killed room sig pid shell_pid nz) = kill-IsTracked t room sig pid shell_pid nz
Step-IsTracked t (forked room parent_pid child_pid nz new) =
    fork-IsTracked t room parent_pid child_pid nz new
Step-IsTracked t (ended room pid nz) = exit-IsTracked t room pid nz
Step-IsTracked t (looked_up fd_pos) = unfold fdget_pos in same_tables refl refl t
Step-IsTracked t (wrote kernel call) = ksys_write-IsTracked t kernel call
Step-IsTracked t (registered shell i nz new e) = registered-IsTracked t shell i nz new e

-- Whatever programs run one after the other from the maps as they are created, each with whatever it is
-- given, and whatever shells are registered in between, while no pid is 0, each new process has a pid
-- that no entry of `children` has and each new shell one that no entry of `shells` has: the two array
-- maps are tables. The entries that are taken stand first and have distinct pids other than 0, and
-- all the others are zero.
pub Reach-IsTracked : {maps : Maps} → Reach maps → IsTracked maps
Reach-IsTracked start = fresh-IsTracked
Reach-IsTracked (next r s) = Step-IsTracked (Reach-IsTracked r) s
