-- ===== src/Wire/Layout.antt =====
-- The records of the ring buffer are the structures of daemon/src/common.h, member by member.
use nhi.Prelude.{◌+◌, ◌≡◌, refl, ap, ◌∙◌, [], ◌∷◌, ◌++◌, some, arith, length, length-append, drop}
use nhi.Common.{Event, killed, child_created, shell_exited, written}
use nhi.Kernel.Layout.{size_of, offset_of, array}
use nhi.Kernel.Layout.Integers.{char, pid_t}
use nhi.Kernel.Layout.Shared.{
  struct_kill_event, struct_exit_shell_indicator_event, struct_write_event,
}
use nhi.Kernel.Write.File.{read_member}
use nhi.Wire.{le_bytes, read_le, encode}
use nhi.Wire.Laws.{IsSent, length-le_bytes, drop-le_bytes, read_le-le_bytes}

-- A record has the size of its structure and, at the offset of each member, that member. The output
-- of a write begins where the structure ends.
abbrev pub IsLaidOut : Event → Type 0
IsLaidOut (killed e) =
    let bytes = encode (killed e) in
    (length bytes ≡ size_of struct_kill_event)
    × (read_member ("shell_pid" ∷ []) struct_kill_event bytes ≡ e.shell_pid)
    × (read_member ("sig" ∷ []) struct_kill_event bytes ≡ e.sig)
    × (read_member ("parent_shell_indicator" ∷ []) struct_kill_event bytes
        ≡ e.parent_shell_indicator)
IsLaidOut (child_created shell_pid) =
    let bytes = encode (child_created shell_pid) in
    (length bytes ≡ size_of pid_t) × (read_member [] pid_t bytes ≡ shell_pid)
IsLaidOut (shell_exited e) =
    let bytes = encode (shell_exited e) in
    (length bytes ≡ size_of struct_exit_shell_indicator_event)
    × (read_member ("indicator" ∷ []) struct_exit_shell_indicator_event bytes ≡ e.indicator)
IsLaidOut (written w) =
    let bytes = encode (written w) in
    (length bytes ≡ size_of struct_write_event + length w.output)
    × (read_member ("indicator" ∷ []) struct_write_event bytes ≡ w.indicator)
    × (offset_of ("output" ∷ []) struct_write_event ≡ some (8, array 0 char))
    × (drop 8 bytes ≡ w.output)

-- Every event that the programs send, with its fields within their types, has the layout that its
-- structure has in C.
pub encode-IsLaidOut : (e : Event) → IsSent e → IsLaidOut e
unfolding encode read_member size_of offset_of
encode-IsLaidOut (killed e) h =
    let pid = le_bytes 4 e.shell_pid in
    let sig = le_bytes 4 e.sig in
    let rest = le_bytes 8 e.parent_shell_indicator in
    (
      omega (
        arith,
        length-append pid (sig ++ rest),
        length-append sig rest,
        length-le_bytes 4 e.shell_pid,
        length-le_bytes 4 e.sig,
        length-le_bytes 8 e.parent_shell_indicator,
      ),
      read_le-le_bytes 4 e.shell_pid (sig ++ rest) h.0,
      ap (read_le 4) (drop-le_bytes 4 e.shell_pid (sig ++ rest))
          ∙ read_le-le_bytes 4 e.sig rest h.1,
      read_le-le_bytes 8 e.parent_shell_indicator [] h.2,
    )
encode-IsLaidOut (child_created shell_pid) h =
    (length-le_bytes 4 shell_pid, read_le-le_bytes 4 shell_pid [] h)
encode-IsLaidOut (shell_exited e) h =
    (length-le_bytes 8 e.indicator, read_le-le_bytes 8 e.indicator [] h)
encode-IsLaidOut (written w) h = (
  omega (arith, length-append (le_bytes 8 w.indicator) w.output, length-le_bytes 8 w.indicator),
  read_le-le_bytes 8 w.indicator w.output h.0,
  refl,
  drop-le_bytes 8 w.indicator w.output,
)
