-- ===== src/Kernel/Kill.antt =====
-- `kill_something_info` of daemon/src/nhi.bpf.c, which runs on a kill(2). A shell announces itself by
-- SIGUSR1 (bash) or SIGUSR2 (zsh), and the end of a command by SIGRTMIN, to the pid `nhid_hash`.
pub mod Laws
use nhi.Prelude.{ℕ, Bool, ◌||◌, not, List, Option, none, some, ◌==◌, if◌then◌else◌}
use nhi.Common.{
  Shell, Child, Event, killed, zero_child, shell_pid_of, child_pid_of, shells_max_entries,
  children_max_entries, nhid_hash, sigusr1, sigusr2,
}
use nhi.Kernel.Maps.{Maps, submit}
use nhi.Kernel.Scan.{Removal, hit, free, exhausted, removal_loop, search_loop, finish_removal}

-- The loop that finds the indicator of the parent shell; 0 if there is none.
unfoldable pub find_parent_indicator : ℕ → List Shell → ℕ
find_parent_indicator parent_shell_pid shells =
    elim (search_loop shell_pid_of parent_shell_pid shells_max_entries 0 shells) [
      | hit i shell ↦ shell.indicator
      | free i ↦ 0
      | exhausted ↦ 0
    ]

-- `parent_shell_pid` after the loop over `children`.
abbrev pub parent_of : Removal Child → ℕ
parent_of r = elim r.found [ none ↦ 0 | some (i, child) ↦ child.shell_pid ]

-- `room` says that bpf_ringbuf_reserve gave a record, and `shell_pid` is the current process.
unfoldable pub kill_something_info : Bool → ℕ → ℕ → ℕ → Maps → Maps
kill_something_info room sig pid shell_pid maps =
    if not (pid == nhid_hash)
    then maps
    else (let announces = sig == sigusr1 || sig == sigusr2 in
        let removal =
          removal_loop child_pid_of shell_pid children_max_entries 0 none maps.children in
        let maps' =
          if announces
          then record maps { children = finish_removal zero_child removal maps.children }
          else maps in
        let indicator =
          if announces then find_parent_indicator (parent_of removal) maps.shells else 0 in
        let event =
          killed
            (record { shell_pid = shell_pid; sig = sig; parent_shell_indicator = indicator }) in
        if room then submit event maps' else maps')
