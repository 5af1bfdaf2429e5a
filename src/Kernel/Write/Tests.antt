-- ===== src/Kernel/Write/Tests.antt =====
-- `ksys_write` of daemon/src/nhi.bpf.c for concrete writes of the child of a bash to its terminal.
use nhi.Prelude.{
  ℕ, ◌≡◌, ◌≢◌, refl, ap, true, List, [], ◌∷◌, ◌++◌, some, arith, length, drop, ◌+◌, replicate, All,
  codes, ◌==◌, if◌then◌else◌, set, get_elem?,
}
use nhi.Kernel.Maps.{Scratch}
use nhi.Kernel.Table.{find_pid}
use nhi.Kernel.Tests.{bash, sleep, session, session-Tracks}
use nhi.Kernel.Write.{Kernel, WriteCall, clamp_count, ksys_write}
use nhi.Wire.{read_le}
use nhi.Kernel.Layout.{offset_of, size_of}
use nhi.Kernel.Write.File.{Memory, bpf_core_read, bpf_core_read_str, read_member, dentry_at}
use nhi.Kernel.Write.File.Laws.{load, dentry_at-load}
use nhi.Kernel.Write.Terminal.{Dentry, name_loop, same_terminal}
use nhi.Kernel.Write.Recorded.{ShownWrite}
use nhi.Kernel.Write.Laws.{
  text_event, enter_sequence, write_records, write_enters_screen, write_untracked,
}
use nhi.Kernel.Write.Erasure.{leave_sequence, erased}
use nhi.Kernel.Write.Leave.{write_leaves_screen}
use nhi.Kernel.Write.Sizes.{Sends, ksys_write-Sends}

-- The file at 4096, its entry at 8192 with the name "0" at 12288, and its inode at 16384 with the
-- group 5.
abbrev memory : Memory
memory address =
    if address == 4121
    then 32
    else if address == 8228
    then 1
    else if address == 8233
    then 48
    else if address == 8241
    then 64
    else if address == 12288
    then b'0'
    else if address == 16392
    then 5
    else 0

abbrev kernel : Kernel
kernel = record { memory = memory; terminal = replicate 8 0; uninitialised = 0; room = true }

abbrev pts_0 : Dentry
pts_0 = record { i_gid = 5; d_name_len = 1; terminal = b'0' ∷ 0 ∷ replicate 6 0 }

file_test : dentry_at memory (replicate 8 0) 4096 ≡ pts_0
unfolding dentry_at bpf_core_read bpf_core_read_str read_member read_le offset_of size_of
file_test = refl

file_gid : (dentry_at memory (replicate 8 0) 4096).i_gid ≡ 5
file_gid = ap (λ (d : Dentry). d.i_gid) file_test

file_same : same_terminal (dentry_at memory (replicate 8 0) 4096) bash ≡ true
unfolding same_terminal name_loop
file_same = ap (λ (d : Dentry). same_terminal d bash) file_test

abbrev write_of : ℕ → List ℕ → WriteCall
write_of pid text = record { current_pid = pid; fd = 1; buf = some text; count = length text }

abbrev empty_scratch : Scratch
empty_scratch = record { indicator = 0; output = replicate 32760 0 }

-- Seven bytes.
abbrev seven : List ℕ
seven = codes "listing"

seven-plain : All (λ b. b ≢ 27) seven
seven-plain = (
  (λ e. omega arith),
  (
    (λ e. omega arith),
    (
      (λ e. omega arith),
      ((λ e. omega arith), ((λ e. omega arith), ((λ e. omega arith), ((λ e. omega arith), tt)))),
    ),
  ),
)

seven-Shown : ShownWrite kernel (write_of 301 seven) session (bash ∷ []) (sleep ∷ []) bash seven
unfolding find_pid
seven-Shown = record {
  tracks = session-Tracks;
  child = sleep;
  is_child = refl;
  is_shell = refl;
  fd_pos = 4098;
  file = refl;
  inode = 0;
  has_inode = refl;
  scratch = empty_scratch;
  has_scratch = refl;
  tty = file_gid;
  same = file_same;
  memory = refl;
  whole = refl;
  nonempty = omega arith;
  small = omega arith;
}

write_records_example :
    let maps' = ksys_write kernel (write_of 301 seven) session in
    (maps'.shells ≡ session.shells)
    × (maps'.children ≡ session.children)
    × (maps'.ring_buffer ≡ (
        if bash.omit_write == 1
        then session.ring_buffer
        else session.ring_buffer
          ++ text_event bash.indicator 1 seven seven-Shown.scratch.output ∷ []))
write_records_example =
    write_records kernel (write_of 301 seven) session (bash ∷ []) (sleep ∷ []) bash seven
      seven-Shown refl seven-plain

-- Two bytes, and the switch to the alternate screen.
abbrev switching : List ℕ
switching = codes "vi" ++ (enter_sequence ++ codes "~")

switching-Shown :
    ShownWrite kernel (write_of 301 switching) session (bash ∷ []) (sleep ∷ []) bash switching
unfolding find_pid
switching-Shown = record {
  tracks = session-Tracks;
  child = sleep;
  is_child = refl;
  is_shell = refl;
  fd_pos = 4098;
  file = refl;
  inode = 0;
  has_inode = refl;
  scratch = empty_scratch;
  has_scratch = refl;
  tty = file_gid;
  same = file_same;
  memory = refl;
  whole = refl;
  nonempty = omega arith;
  small = omega arith;
}

write_enters_screen_example :
    let maps' = ksys_write kernel (write_of 301 switching) session in
    ((i : ℕ) × (get_elem? session.shells i ≡ some bash)
      × (maps'.shells ≡ set session.shells i (record bash { omit_write = 1 })))
    × (maps'.children ≡ session.children)
    × (maps'.ring_buffer ≡ session.ring_buffer)
write_enters_screen_example =
    write_enters_screen kernel (write_of 301 switching) session (bash ∷ []) (sleep ∷ []) bash
      (codes "vi") (codes "~") switching-Shown ((λ e. omega arith), ((λ e. omega arith), tt))
      (omega arith)

write_untracked_example : ksys_write kernel (write_of 999 seven) session ≡ session
write_untracked_example =
    write_untracked kernel (write_of 999 seven) session (bash ∷ []) (sleep ∷ []) session-Tracks
      (omega arith) (unfold find_pid in refl)

ksys_write-Sends_example :
    Sends session.ring_buffer (ksys_write kernel (write_of 301 seven) session).ring_buffer
unfolding clamp_count
ksys_write-Sends_example =
    ksys_write-Sends kernel (write_of 301 seven) session empty_scratch refl refl (omega arith)

-- The file of the tests, which the program reads whole.
dentry_at-load_example :
    let dentry = load memory 8 (4096 + 24) in
    let name = bpf_core_read_str memory 7 (load memory 8 (dentry + 40)) in
    dentry_at memory (replicate 8 0) 4096 ≡ record {
      i_gid = load memory 4 (load memory 8 (dentry + 48) + 8);
      d_name_len = load memory 4 (dentry + 36);
      terminal = name ++ 0 ∷ drop (length name + 1) (replicate 8 0);
    }
dentry_at-load_example = dentry_at-load memory (replicate 8 0) 4096

-- The sequence between two texts.
abbrev leaving : List ℕ
leaving = codes "vi" ++ (leave_sequence ++ codes "done")

leaving-Shown :
    ShownWrite kernel (write_of 301 leaving) session (bash ∷ []) (sleep ∷ []) bash leaving
unfolding find_pid
leaving-Shown = record {
  tracks = session-Tracks;
  child = sleep;
  is_child = refl;
  is_shell = refl;
  fd_pos = 4098;
  file = refl;
  inode = 0;
  has_inode = refl;
  scratch = empty_scratch;
  has_scratch = refl;
  tty = file_gid;
  same = file_same;
  memory = refl;
  whole = refl;
  nonempty = omega arith;
  small = omega arith;
}

write_leaves_screen_example :
    let maps' = ksys_write kernel (write_of 301 leaving) session in
    (i : ℕ) × (get_elem? session.shells i ≡ some bash)
    × (maps'.shells ≡ set session.shells i (record bash { omit_write = 0 }))
    × (maps'.children ≡ session.children)
    × (maps'.ring_buffer
        ≡ session.ring_buffer
          ++ text_event bash.indicator 1
              (codes "vi" ++ (erased ++ codes "done"))
              leaving-Shown.scratch.output
            ∷ [])
write_leaves_screen_example =
    write_leaves_screen kernel (write_of 301 leaving) session (bash ∷ []) (sleep ∷ []) bash
      (codes "vi") (codes "done") leaving-Shown refl ((λ e. omega arith), ((λ e. omega arith), tt))
      ((λ e. omega arith), ((λ e. omega arith), ((λ e. omega arith), ((λ e. omega arith), tt))))
      (omega arith)
