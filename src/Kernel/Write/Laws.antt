-- ===== src/Kernel/Write/Laws.antt =====
-- What `ksys_write` tells the daemon of a write to a terminal.
use nhi.Prelude.{
  ℕ, zero, suc, ◌+◌, ◌<◌, ◌≤◌, ◌≡◌, ◌≢◌, refl, ap, true, false, List, [], ◌∷◌, ◌++◌, none, some,
  arith, length, length-append, drop, All, ◌==◌, get_elem?, get_elem?-behind, if◌then◌else◌,
  append_assoc, set, Bool-cases, inl, inr,
}
use nhi.Common.{Shell, Child, Event, written, child_pid_of, children_max_entries}
use nhi.Kernel.Maps.{Maps}
use nhi.Kernel.Table.{find_pid}
use nhi.Kernel.Table.Lookup.{search-none_room}
use nhi.Kernel.Tracks.{Tracks}
use nhi.Kernel.Write.Terminal.{byte_at}
use nhi.Kernel.Write.Escape.{is_escape, EscapeEnd}
use nhi.Kernel.Write.Silent.{escape_loop-silent, escape_loop-enter, byte_at-append}
use nhi.Kernel.Write.Recorded.{
  ShownWrite, stale, take-padded, ksys_write-shown, write_output-fills, dentry_of,
}
use nhi.Kernel.Write.{
  Kernel, WriteCall, Target, with_inode, specificity_of, find_shell_pid, emit, finish_write,
  ksys_write, padded,
}

-- The event of a write of `text`.
abbrev pub text_event : ℕ → ℕ → List ℕ → List ℕ → Event
text_event indicator fd text old = written (record {
  indicator = indicator;
  output = specificity_of fd ∷ (text ++ stale (length text) old);
})

pub finish_write-silent :
    (i fd : ℕ) (s : Shell) (text old : List ℕ) (maps : Maps)
    → get_elem? maps.shells i ≡ some s
    → let target : Target = record { shell_index = i; shell = some s; indicator = s.indicator } in
      let end : EscapeEnd = record {
        returned = false;
        shells = maps.shells;
        output = specificity_of fd ∷ (text ++ drop (length text) (drop 1 old));
      } in
      let maps' = finish_write true target (length text) end maps in
      (maps'.shells ≡ maps.shells)
      × (maps'.children ≡ maps.children)
      × (maps'.ring_buffer ≡ (
          if s.omit_write == 1
          then maps.ring_buffer
          else maps.ring_buffer ++ text_event s.indicator fd text old ∷ []))
unfolding finish_write emit
finish_write-silent i fd s text old maps g =
    let e : padded (length text) + 1 ≡ suc (padded (length text)) = omega arith in
    rw (finish_write, emit, g, e, take-padded text old) (ground arith)

-- Behind the specificity byte stands no escape character.
pub quiet_bytes :
    (b : ℕ) (text rest : List ℕ)
    → All (λ b. b ≢ 27) text
    → (j : ℕ) → 1 ≤ j
    → j ≤ length text
    → byte_at (b ∷ (text ++ rest)) j ≢ 27
quiet_bytes b text rest quiet zero lo hi = absurd (omega arith)
quiet_bytes b text rest quiet (suc j) lo hi =
    byte_at-append (λ c. c ≢ 27) text rest j quiet (omega arith)

-- A tracked process writes 1 to 32759 bytes with no escape character among them to a terminal that
-- passes for its shell's, and the ring buffer has room. The tables stay as they are. Unless the
-- shell is on the alternate screen, one event goes to the shell's indicator, with the byte for the
-- descriptor, the bytes of the write in order and, exactly if there are 7, one byte that an earlier
-- write left in the scratch buffer; on the alternate screen no event goes out.
pub write_records :
    (kernel : Kernel) (call : WriteCall) (maps : Maps) (ss : List Shell) (cs : List Child)
    (s : Shell) (text : List ℕ) (w : ShownWrite kernel call maps ss cs s text)
    → kernel.room ≡ true
    → All (λ b. b ≢ 27) text
    → let maps' = ksys_write kernel call maps in
      (maps'.shells ≡ maps.shells)
      × (maps'.children ≡ maps.children)
      × (maps'.ring_buffer ≡ (
          if s.omit_write == 1
          then maps.ring_buffer
          else maps.ring_buffer ++ text_event s.indicator call.fd text w.scratch.output ∷ []))
write_records kernel call maps ss cs s text w room quiet =
    let (i, g, reached) = ksys_write-shown w in
    let target : Target = record { shell_index = i; shell = some s; indicator = s.indicator } in
    let maps' = with_inode (dentry_of kernel w.fd_pos) maps in
    let rest = drop (length text) (drop 1 w.scratch.output) in
    let loop =
      escape_loop-silent i (length text) 511 1 maps.shells (specificity_of call.fd ∷ (text ++ rest))
        w.nonempty
        (λ j lo hi. quiet_bytes (specificity_of call.fd) text rest quiet j lo (omega arith)) in
    rw (reached, write_output-fills w target maps' refl, loop, room)
      (finish_write-silent i call.fd s text w.scratch.output maps' g)

-- ESC [ ? 1 0 4 9 h, which switches to the alternate screen.
abbrev pub enter_sequence : List ℕ
enter_sequence = 27 ∷ b'[' ∷ b'?' ∷ b'1' ∷ b'0' ∷ b'4' ∷ b'9' ∷ b'h' ∷ []

pub bytes_behind :
    (xs ys : List ℕ) (k i : ℕ) → i ≡ length xs + k → byte_at (xs ++ ys) i ≡ byte_at ys k
bytes_behind xs ys k i e = rw (byte_at, get_elem?-behind xs ys k i e)

enter-is_escape :
    (xs ys : List ℕ)
    → (is_escape (xs ++ (enter_sequence ++ ys)) (length xs) ≡ true)
      × (byte_at (xs ++ (enter_sequence ++ ys)) (length xs + 7) ≡ b'h')
unfolding is_escape
enter-is_escape xs ys = (
  rw (
    is_escape,
    bytes_behind xs (enter_sequence ++ ys) 0 (length xs) (omega arith),
    bytes_behind xs (enter_sequence ++ ys) 1 (length xs + 1) refl,
    bytes_behind xs (enter_sequence ++ ys) 2 (length xs + 2) refl,
    bytes_behind xs (enter_sequence ++ ys) 3 (length xs + 3) refl,
    bytes_behind xs (enter_sequence ++ ys) 4 (length xs + 4) refl,
    bytes_behind xs (enter_sequence ++ ys) 5 (length xs + 5) refl,
    bytes_behind xs (enter_sequence ++ ys) 6 (length xs + 6) refl,
  ),
  bytes_behind xs (enter_sequence ++ ys) 7 (length xs + 7) refl,
)

-- A tracked process writes 1 to 32759 bytes to a terminal that passes for its shell's, the first
-- escape character among them stands within the first 511 bytes and begins the sequence that switches to the alternate screen. Then the entry of the shell is marked, no other entry and
-- no child changes, and no event goes out, not even for the bytes in front of the sequence.
pub write_enters_screen :
    (kernel : Kernel) (call : WriteCall) (maps : Maps) (ss : List Shell) (cs : List Child)
    (s : Shell) (pre post : List ℕ)
    → ShownWrite kernel call maps ss cs s (pre ++ (enter_sequence ++ post))
    → All (λ b. b ≢ 27) pre
    → length pre < 511
    → let maps' = ksys_write kernel call maps in
      ((i : ℕ) × (get_elem? maps.shells i ≡ some s)
        × (maps'.shells ≡ set maps.shells i (record s { omit_write = 1 })))
      × (maps'.children ≡ maps.children)
      × (maps'.ring_buffer ≡ maps.ring_buffer)
unfolding finish_write
write_enters_screen kernel call maps ss cs s pre post w quiet near =
    let (i, g, reached) = ksys_write-shown w in
    let text = pre ++ (enter_sequence ++ post) in
    let rest = drop (length text) (drop 1 w.scratch.output) in
    let b = specificity_of call.fd in
    let split : b ∷ (text ++ rest) ≡ (b ∷ pre) ++ (enter_sequence ++ (post ++ rest)) =
      ap (λ l. b ∷ l) (append_assoc pre (enter_sequence ++ post) rest) in
    let (esc, h) = enter-is_escape (b ∷ pre) (post ++ rest) in
    let long : length text ≡ length pre + 8 + length post =
      omega (arith, length-append pre (enter_sequence ++ post)) in
    let loop =
      escape_loop-enter i (length text) 511 1 (length (b ∷ pre)) maps.shells (b ∷ (text ++ rest)) s
        (omega arith) (omega arith) (omega arith)
        (λ j lo hi.
          rw split (quiet_bytes b pre (enter_sequence ++ (post ++ rest)) quiet j lo (omega arith)))
        (rw split esc) (rw split h) g in
    rw
      (
        reached,
        write_output-fills w (record { shell_index = i; shell = some s; indicator = s.indicator })
            (with_inode (dentry_of kernel w.fd_pos) maps) refl,
        loop,
        finish_write,
      )
      ((i, g, refl), refl, refl)

-- A process that no entry of `children` is for, while that table has a free entry: whatever it
-- writes, nothing changes and no event goes out.
pub write_untracked :
    (kernel : Kernel) (call : WriteCall) (maps : Maps) (ss : List Shell) (cs : List Child)
    → Tracks maps ss cs
    → length cs < children_max_entries
    → find_pid child_pid_of call.current_pid cs ≡ none
    → ksys_write kernel call maps ≡ maps
unfolding ksys_write find_shell_pid
write_untracked kernel call maps ss cs t room e =
    let p = search-none_room t.children call.current_pid refl e room in
    elim (Bool-cases (call.count == 0)) [
      | inl z ↦ rw (ksys_write, z)
      | inr nz ↦ rw (ksys_write, nz, find_shell_pid, p)
    ]
