-- ===== src/Kernel/Write.antt =====
-- `ksys_write` and `__fdget_pos` of daemon/src/nhi.bpf.c, which run at the end of a write(2) and of
-- the kernel's lookup of its file. A write of a tracked process to its terminal becomes an event.
pub mod Terminal
pub mod Escape
pub mod File
pub mod Cases
pub mod Recorded
pub mod Laws
pub mod Silent
pub mod Sizes
pub mod Erasure
pub mod Leave
mod Tests
use nhi.Prelude.{
  ℕ, zero, suc, ◌+◌, ◌-◌, ◌%◌, Bool, true, false, not, List, [], ◌∷◌, ◌++◌, Option, none, some, ltb,
  ◌==◌, take, drop, length, if◌then◌else◌,
}
use nhi.Common.{
  Shell, Child, WriteEvent, written, shell_pid_of, child_pid_of, shells_max_entries,
  children_max_entries, ksys_write_event_size, sizeof_long,
}
use nhi.Kernel.Maps.{Maps, Scratch, bpf_map_lookup_elem, bpf_map_update_elem, submit}
use nhi.Kernel.Scan.{hit, free, exhausted, search_loop}
use Terminal.{Dentry, same_terminal}
use Escape.{EscapeEnd, escape_loop}
use File.{Memory, dentry_at}

-- `fd_pos` is the value that `__fdget_pos` returned: a file's address with two flags below it.
unfoldable pub fdget_pos : ℕ → Maps → Maps
fdget_pos fd_pos maps = record maps {
  fdget_pos_pos = bpf_map_update_elem maps.fdget_pos_pos 0 fd_pos;
}

-- A call of write(2), as the program sees it at its end: the arguments, and the memory at `buf`
-- (`none` for a null pointer) as bpf_probe_read_user reads it.
pub record WriteCall : Type 0 where
  pub current_pid : ℕ
  pub fd : ℕ
  pub buf : Option (List ℕ)
  pub count : ℕ

-- What the program reads or is told beside its maps: its memory, the value that an
-- uninitialised `shell_pid` has, and whether bpf_ringbuf_output finds room.
pub record Kernel : Type 0 where
  pub memory : Memory
  -- what the array `terminal` on the stack holds at first
  pub terminal : List ℕ
  pub uninitialised : ℕ
  pub room : Bool

-- The loop over `children`: the shell of the process, or a return. With all rounds used up
-- `shell_pid` has no value of its own.
unfoldable pub find_shell_pid : ℕ → ℕ → List Child → Option ℕ
find_shell_pid uninitialised current_pid children =
    elim (search_loop child_pid_of current_pid children_max_entries 0 children) [
      | hit i child ↦ some child.shell_pid
      | free i ↦ none
      | exhausted ↦ some uninitialised
    ]

-- `shell_index`, `shell` and `indicator` behind the loop over `shells`.
pub record Target : Type 0 where
  pub shell_index : ℕ
  pub shell : Option Shell
  pub indicator : ℕ

-- The loop over `shells`: where it ends, or a return. With all rounds used up `shell` points to the
-- last entry, the index is past it, and the indicator is still 0.
unfoldable pub find_target : ℕ → List Shell → Option Target
find_target shell_pid shells =
    elim (search_loop shell_pid_of shell_pid shells_max_entries 0 shells) [
      | hit i shell ↦
          some (record { shell_index = i; shell = some shell; indicator = shell.indicator })
      | free i ↦ none
      | exhausted ↦ some (record {
        shell_index = shells_max_entries;
        shell = bpf_map_lookup_elem shells (shells_max_entries - 1);
        indicator = 0;
      })
    ]

-- The byte in front of the output: -2 for standard error, -1 for any other descriptor.
abbrev pub specificity_of : ℕ → ℕ
specificity_of fd = if fd == 2 then 254 else 255

-- The bound on `count`.
unfoldable pub clamp_count : ℕ → ℕ
clamp_count count =
    if ltb (ksys_write_event_size - sizeof_long - 1) count
    then ksys_write_event_size - sizeof_long - 2
    else count

-- bpf_probe_read_user into `output + 1`.
unfoldable pub read_user : List ℕ → ℕ → Option (List ℕ) → List ℕ
read_user output count none = output
read_user output count (some memory) =
    take 1 output ++ (take count memory ++ drop (count + 1) output)

-- `output` when the bytes of the write are in place; all else in it is left from earlier writes.
unfoldable pub fill : ℕ → ℕ → Option (List ℕ) → List ℕ → List ℕ
unfolding read_user
fill fd count buf output = read_user (specificity_of fd ∷ drop 1 output) count buf

-- A record of 7 bytes would have the size of a kill event.
unfoldable pub padded : ℕ → ℕ
padded count = if count == 7 then count + 1 else count

-- From the second look at the shell to the end.
unfoldable pub emit : Bool → ℕ → ℕ → ℕ → List ℕ → Maps → Maps
unfolding padded
emit room shell_index indicator count output maps =
    let event : WriteEvent = record {
      indicator = indicator;
      output = take (padded count + 1) output;
    } in
    let sent = if room then submit (written event) maps else maps in
    elim (bpf_map_lookup_elem maps.shells shell_index) [
      | none ↦ sent
      | some shell ↦ if shell.omit_write == 1 then maps else sent
    ]

-- The maps behind the loop over escape sequences, which writes through to two of them.
abbrev pub with_end : Target → EscapeEnd → Maps → Maps
with_end target end maps =
    let scratch : Scratch = record { indicator = target.indicator; output = end.output } in
    record maps {
      shells = end.shells;
      ksys_write_event = bpf_map_update_elem maps.ksys_write_event 0 scratch;
    }

-- What follows that loop.
unfoldable pub finish_write : Bool → Target → ℕ → EscapeEnd → Maps → Maps
unfolding emit
finish_write room target count end maps =
    if end.returned
    then with_end target end maps
    else emit room target.shell_index target.indicator count end.output (with_end target end maps)

-- From the specificity to the end.
unfoldable pub write_output : Kernel → WriteCall → Target → Maps → Maps
unfolding clamp_count fill finish_write
write_output kernel call target maps = elim (bpf_map_lookup_elem maps.ksys_write_event 0) [
  | none ↦ maps
  | some scratch ↦
      let count = clamp_count call.count in
      let output = fill call.fd count call.buf scratch.output in
      finish_write kernel.room target count
        (escape_loop target.shell_index count 511 1 maps.shells output) maps
]

-- The maps behind the read of the inode.
abbrev pub with_inode : Dentry → Maps → Maps
with_inode dentry maps = record maps {
  ksys_write_d_inode = bpf_map_update_elem maps.ksys_write_d_inode 0 dentry.i_gid;
}

-- The look at the file: it must be a terminal (of the group 5), and the shell's.
unfoldable pub write_to_file : Kernel → WriteCall → Target → Shell → Maps → Maps
unfolding write_output same_terminal
write_to_file kernel call target shell maps = elim (bpf_map_lookup_elem maps.fdget_pos_pos 0) [
  | none ↦ maps
  | some fd_pos ↦ elim (bpf_map_lookup_elem maps.ksys_write_d_inode 0) [
    | none ↦ maps
    | some d_inode ↦
        let dentry = dentry_at kernel.memory kernel.terminal (fd_pos - fd_pos % 4) in
        if not (dentry.i_gid == 5)
        then with_inode dentry maps
        else if same_terminal dentry shell
        then write_output kernel call target (with_inode dentry maps)
        else with_inode dentry maps
  ]
]

unfoldable pub ksys_write : Kernel → WriteCall → Maps → Maps
unfolding write_to_file
ksys_write kernel call maps =
    if call.count == 0
    then maps
    else elim (find_shell_pid kernel.uninitialised call.current_pid maps.children) [
      | none ↦ maps
      | some shell_pid ↦ elim (find_target shell_pid maps.shells) [
        | none ↦ maps
        | some target ↦ elim target.shell [
          | none ↦ maps
          | some shell ↦ write_to_file kernel call target shell maps
        ]
      ]
    ]
