-- ===== src/Kernel/Exit.antt =====
-- `do_exit` of daemon/src/nhi.bpf.c, which runs when a process ends.
pub mod Laws
use nhi.Prelude.{ℕ, Bool, Option, none, some, ◌==◌, if◌then◌else◌}
use nhi.Common.{
  Shell, shell_exited, zero_shell, zero_child, shell_pid_of, child_pid_of, shells_max_entries,
  children_max_entries,
}
use nhi.Kernel.Maps.{Maps, bpf_map_lookup_elem, submit}
use nhi.Kernel.Scan.{Removal, removal_loop, swap_out, finish_removal}

-- The second block: the process leaves `children`.
unfoldable pub remove_child : ℕ → Maps → Maps
remove_child current_pid maps = record maps {
  children =
      finish_removal zero_child
        (removal_loop child_pid_of current_pid children_max_entries 0 none maps.children)
        maps.children;
}

-- What follows the loop of the first block: a shell leaves `shells` and the program returns, with an
-- event if there is `room` for it; for any other process the second block runs.
unfoldable pub finish_shell_removal : Bool → ℕ → Removal Shell → Maps → Maps
unfolding remove_child
finish_shell_removal room current_pid removal maps = elim removal.stop [
  | none ↦ remove_child current_pid maps
  | some i ↦ elim removal.found [
    | none ↦ remove_child current_pid maps
    | some (pid_index, shell) ↦
        let maps' = record maps { shells = swap_out zero_shell maps.shells pid_index i } in
        if room then submit (shell_exited (record { indicator = shell.indicator })) maps' else maps'
  ]
]

-- The first block.
unfoldable pub remove_shell : Bool → ℕ → Maps → Maps
unfolding finish_shell_removal
remove_shell room current_pid maps =
    finish_shell_removal room current_pid
      (removal_loop shell_pid_of current_pid shells_max_entries 0 none maps.shells) maps

-- The test `!i && !shell->shell_pid` of the first round.
unfoldable pub do_exit : Bool → ℕ → Maps → Maps
unfolding remove_shell
do_exit room current_pid maps = elim (bpf_map_lookup_elem maps.shells 0) [
  | none ↦ remove_shell room current_pid maps
  | some first ↦ if first.shell_pid == 0 then maps else remove_shell room current_pid maps
]
