-- ===== src/Kernel/Fork.antt =====
-- `fork_tracepoint` of daemon/src/nhi.bpf.c, which runs in the parent when a process is created.
pub mod Laws
use nhi.Prelude.{ℕ, Bool, Option, none, some, if◌then◌else◌}
use nhi.Common.{
  Child, child_created, shell_pid_of, child_pid_of, shells_max_entries, children_max_entries,
}
use nhi.Kernel.Maps.{Maps, bpf_map_update_elem, submit}
use nhi.Kernel.Scan.{hit, free, exhausted, search_loop, free_loop}

-- The block behind the label `add_new_child_pid`.
unfoldable pub add_new_child_pid : Bool → ℕ → ℕ → Maps → Maps
add_new_child_pid room child_pid parent_pid maps =
    elim (free_loop child_pid_of children_max_entries 0 maps.children) [
      | none ↦ maps
      | some i ↦
          let helper : Child = record { child_pid = child_pid; shell_pid = parent_pid } in
          let maps' = record maps { children = bpf_map_update_elem maps.children i helper } in
          if room then submit (child_created parent_pid) maps' else maps'
    ]

-- The block that looks for the parent among the children; the first jump to the label goes past it.
unfoldable pub add_if_parent_in_children : Bool → ℕ → ℕ → Maps → Maps
unfolding add_new_child_pid
add_if_parent_in_children room child_pid parent_pid maps =
    elim (search_loop child_pid_of parent_pid children_max_entries 0 maps.children) [
      | free i ↦ maps
      | hit i child ↦ add_new_child_pid room child_pid child.shell_pid maps
      | exhausted ↦ add_new_child_pid room child_pid parent_pid maps
    ]

-- `parent_pid` is the current process, and `child_pid` comes from the tracepoint's context.
unfoldable pub fork_tracepoint : Bool → ℕ → ℕ → Maps → Maps
unfolding add_new_child_pid add_if_parent_in_children
fork_tracepoint room parent_pid child_pid maps =
    elim (search_loop shell_pid_of parent_pid shells_max_entries 0 maps.shells) [
      | hit i shell ↦ add_new_child_pid room child_pid parent_pid maps
      | free i ↦ add_if_parent_in_children room child_pid parent_pid maps
      | exhausted ↦ add_if_parent_in_children room child_pid parent_pid maps
    ]
