-- ===== src/Kernel/Write/File.antt =====
-- What `ksys_write` of daemon/src/nhi.bpf.c reads of the kernel's memory: the open file, its entry
-- in a directory and its inode, each structure whole, and the name.
pub mod Laws
use Prim.Native.String.{String}
use nhi.Prelude.{
  ℕ, zero, suc, ◌+◌, List, [], ◌∷◌, ◌++◌, Option, none, some, ◌==◌, if◌then◌else◌, drop, length,
}
use nhi.Wire.{read_le}
use nhi.Kernel.Layout.{CType, size_of, offset_of}
use nhi.Kernel.Layout.Files.{struct_file, struct_dentry, struct_inode}
use nhi.Kernel.Write.Terminal.{Dentry}

-- The byte at each address. Where the kernel would refuse a read it is 0, which is what bpf_core_read
-- then leaves.
abbrev pub Memory : Type 0
Memory = ℕ → ℕ

-- So many bytes from an address on.
unfoldable pub bpf_core_read : Memory → ℕ → ℕ → List ℕ
bpf_core_read memory zero address = []
bpf_core_read memory (suc size) address = memory address ∷ bpf_core_read memory size (address + 1)

-- The bytes of a text in front of its NUL, at most so many.
unfoldable pub bpf_core_read_str : Memory → ℕ → ℕ → List ℕ
bpf_core_read_str memory zero address = []
bpf_core_read_str memory (suc size) address =
    let rest = bpf_core_read_str memory size (address + 1) in
    if memory address == 0 then [] else memory address ∷ rest

-- A member of a structure whose bytes have been read.
unfoldable pub read_member : List String → CType → List ℕ → ℕ
read_member names t bytes = elim (offset_of names t) [
  | none ↦ 0
  | some (o, u) ↦ read_le (size_of u) (drop o bytes)
]

-- file, dentry, d_inode and terminal, for the file at an address. `terminal` is 8 bytes long, and
-- behind the NUL it keeps what it had.
unfoldable pub dentry_at : Memory → List ℕ → ℕ → Dentry
dentry_at memory terminal address =
    let file = bpf_core_read memory (size_of struct_file) address in
    let dentry =
      bpf_core_read memory (size_of struct_dentry)
        (read_member ("f_path" ∷ "dentry" ∷ []) struct_file file) in
    let d_inode =
      bpf_core_read memory (size_of struct_inode)
        (read_member ("d_inode" ∷ []) struct_dentry dentry) in
    let name =
      bpf_core_read_str memory 7 (read_member ("d_name" ∷ "name" ∷ []) struct_dentry dentry) in
    record {
      i_gid = read_member ("i_gid" ∷ "val" ∷ []) struct_inode d_inode;
      d_name_len = read_member ("d_name" ∷ "len" ∷ []) struct_dentry dentry;
      terminal = name ++ 0 ∷ drop (length name + 1) terminal;
    }
