-- ===== src/Kernel/Write/Recorded.antt =====
-- What `ksys_write` records of a write of a tracked process to the terminal of its shell.
use nhi.Prelude.{
  ℕ, ◌+◌, ◌-◌, ◌%◌, ◌≤◌, ◌≡◌, refl, ap, ◌∙◌, true, false, List, [], ◌∷◌, ◌++◌, some, arith, length,
  take, drop, take-append, take_all, drop-drop_one, ◌==◌, get_elem?, if◌then◌else◌, ne→==, eq→==,
  Bool-cases, inl, inr,
}
use nhi.Common.{
  Shell, Child, zero_shell, zero_child, shell_pid_of, child_pid_of, shells_max_entries,
  children_max_entries,
}
use nhi.Kernel.Maps.{Maps, Scratch}
use nhi.Kernel.Table.{find_pid, IsTable}
use nhi.Kernel.Table.Lookup.{search-some}
use nhi.Kernel.Tracks.{Tracks}
use nhi.Kernel.Write.File.{dentry_at}
use nhi.Kernel.Write.Terminal.{Dentry, same_terminal}
use nhi.Kernel.Write.Escape.{escape_loop}
use nhi.Kernel.Write.{
  Kernel, WriteCall, Target, with_inode, specificity_of, find_shell_pid, find_target, clamp_count,
  fill, read_user, padded, finish_write, write_output, write_to_file, ksys_write,
}

-- The byte behind 7 recorded ones: what an earlier write left there.
abbrev pub stale : ℕ → List ℕ → List ℕ
stale count output = if count == 7 then take 1 (drop 7 (drop 1 output)) else []

-- The file of the write: the one that `__fdget_pos` noted last.
abbrev pub dentry_of : Kernel → ℕ → Dentry
dentry_of kernel fd_pos = dentry_at kernel.memory kernel.terminal (fd_pos - fd_pos % 4)

-- The call writes the bytes `text` to a terminal that passes for the shell `s` of its process.
pub record ShownWrite (kernel : Kernel) (call : WriteCall) (maps : Maps) (ss : List Shell)
    (cs : List Child) (s : Shell) (text : List ℕ) : Type 0 where
  pub tracks : Tracks maps ss cs
  pub child : Child
  pub is_child : find_pid child_pid_of call.current_pid cs ≡ some child
  pub is_shell : find_pid shell_pid_of child.shell_pid ss ≡ some s
  pub fd_pos : ℕ
  pub file : maps.fdget_pos_pos ≡ fd_pos ∷ []
  pub inode : ℕ
  pub has_inode : maps.ksys_write_d_inode ≡ inode ∷ []
  pub scratch : Scratch
  pub has_scratch : maps.ksys_write_event ≡ scratch ∷ []
  pub tty : (dentry_of kernel fd_pos).i_gid ≡ 5
  pub same : same_terminal (dentry_of kernel fd_pos) s ≡ true
  pub memory : call.buf ≡ some text
  pub whole : call.count ≡ length text
  pub nonempty : 1 ≤ length text
  pub small : length text ≤ 32759

find_shell_pid_lem :
    {children : List Child} {cs : List Child}
    → IsTable child_pid_of zero_child children_max_entries children cs
    → (uninitialised pid : ℕ) (c : Child) → find_pid child_pid_of pid cs ≡ some c
    → find_shell_pid uninitialised pid children ≡ some c.shell_pid
unfolding find_shell_pid
find_shell_pid_lem t uninitialised pid c e =
    let (i, p, h, g) = search-some t pid c e in rw (find_shell_pid, p)

find_target_lem :
    {shells : List Shell} {ss : List Shell}
    → IsTable shell_pid_of zero_shell shells_max_entries shells ss
    → (pid : ℕ) (s : Shell) → find_pid shell_pid_of pid ss ≡ some s
    → (i : ℕ) × (find_target pid shells
        ≡ some (record { shell_index = i; shell = some s; indicator = s.indicator }))
      × (get_elem? shells i ≡ some s)
unfolding find_target
find_target_lem t pid s e = let (i, p, h, g) = search-some t pid s e in (i, rw (find_target, p), g)

clamp_small : (count : ℕ) → count ≤ 32759 → clamp_count count ≡ count
unfolding clamp_count
clamp_small count h = ground arith

-- The text stands behind the specificity, and the rest of the buffer is as it was.
fill_lem :
    (fd : ℕ) (text output : List ℕ)
    → fill fd (length text) (some text) output
      ≡ specificity_of fd ∷ (text ++ drop (length text) (drop 1 output))
unfolding fill read_user
fill_lem fd text output = rw (
  take_all (length text) text refl,
  drop-drop_one (length text) (specificity_of fd ∷ drop 1 output),
)

pub take-padded :
    (text output : List ℕ)
    → take (padded (length text)) (text ++ drop (length text) (drop 1 output))
      ≡ text ++ stale (length text) output
unfolding padded
take-padded text output = elim (Bool-cases (length text == 7)) [
  | inl e ↦
      let seven : length text ≡ 7 = ground arith in
      rw (
        padded,
        e,
        take-append text (drop (length text) (drop 1 output)) 1 (length text + 1) refl,
        seven,
      )
  | inr e ↦ rw (
    padded,
    e,
    take-append text (drop (length text) (drop 1 output)) 0 (length text) (omega arith),
  )
]

module _ {kernel : Kernel} {call : WriteCall} {maps : Maps} {ss : List Shell} {cs : List Child}
    {s : Shell} {text : List ℕ} (w : ShownWrite kernel call maps ss cs s text) where
  -- The program gets as far as the output.
  pub ksys_write-shown :
      (i : ℕ) × (get_elem? maps.shells i ≡ some s)
      × (ksys_write kernel call maps
          ≡ write_output kernel call
              (record { shell_index = i; shell = some s; indicator = s.indicator })
              (with_inode (dentry_of kernel w.fd_pos) maps))
  unfolding ksys_write write_to_file
  ksys_write-shown =
      let p =
        find_shell_pid_lem w.tracks.children kernel.uninitialised call.current_pid w.child
          w.is_child in
      let (i, q, g) = find_target_lem w.tracks.shells w.child.shell_pid s w.is_shell in
      let nz : (call.count == 0) ≡ false =
        ne→== call.count 0 (omega (arith, w.whole, w.nonempty)) in
      let file : get_elem? maps.fdget_pos_pos 0 ≡ some w.fd_pos = ap (λ l. get_elem? l 0) w.file in
      let inode : get_elem? maps.ksys_write_d_inode 0 ≡ some w.inode =
        ap (λ l. get_elem? l 0) w.has_inode in
      let tty = eq→== (dentry_of kernel w.fd_pos).i_gid 5 w.tty in
      (i, g, rw (ksys_write, nz, p, q, write_to_file, file, inode, tty, w.same))

  pub write_output-fills :
      (target : Target) (maps' : Maps)
      → maps'.ksys_write_event ≡ maps.ksys_write_event
      → write_output kernel call target maps'
        ≡ finish_write kernel.room target
            (length text)
            (escape_loop target.shell_index
              (length text)
              511
              1
              maps'.shells
              (specificity_of call.fd ∷ (text ++ drop (length text) (drop 1 w.scratch.output))))
            maps'
  unfolding write_output
  write_output-fills target maps' e =
      let at : get_elem? maps'.ksys_write_event 0 ≡ some w.scratch =
        ap (λ l. get_elem? l 0) (e ∙ w.has_scratch) in
      let clamp : clamp_count call.count ≡ length text =
        ap clamp_count w.whole ∙ clamp_small (length text) w.small in
      rw (write_output, at, clamp, w.memory, fill_lem call.fd text w.scratch.output)
