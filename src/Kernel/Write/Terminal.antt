-- ===== src/Kernel/Write/Terminal.antt =====
-- The test in `ksys_write` of daemon/src/nhi.bpf.c that a file is the terminal of a shell.
use nhi.Prelude.{
  ℕ, zero, suc, ◌+◌, Bool, true, false, ◌&&◌, List, none, some, ltb, ◌==◌, get_elem?, if◌then◌else◌,
}
use nhi.Common.{Shell, char_to_u32}

-- What the program reads of a file: the group of its inode, the length of its name, and the array
-- `terminal` into which bpf_core_read_str has copied the name.
pub record Dentry : Type 0 where
  pub i_gid : ℕ
  pub d_name_len : ℕ
  pub terminal : List ℕ

abbrev pub byte_at : List ℕ → ℕ → ℕ
byte_at bytes i = elim (get_elem? bytes i) [ none ↦ 0 | some b ↦ b ]

-- The loop that compares the names; `rounds` is what is left of the 8, and true means that it ends
-- without a return.
unfoldable pub name_loop : ℕ → Dentry → Shell → ℕ → Bool
name_loop zero dentry shell i = true
name_loop (suc rounds) dentry shell i = elim (ltb 0 dentry.d_name_len && i == dentry.d_name_len) [
  | true ↦ true
  | false ↦ elim (byte_at dentry.terminal i == byte_at shell.terminal i) [
    | true ↦ name_loop rounds dentry shell (i + 1)
    | false ↦ false
  ]
]

-- The controlling terminal "tty" passes for every shell.
unfoldable pub same_terminal : Dentry → Shell → Bool
unfolding name_loop
same_terminal dentry shell =
    if dentry.d_name_len == 3
      && (byte_at dentry.terminal 0 == b't'
          && (byte_at dentry.terminal 1 == b't' && byte_at dentry.terminal 2 == b'y'))
    then true
    else if dentry.d_name_len == char_to_u32 shell.terminal_len
    then name_loop 8 dentry shell 0
    else false
