-- ===== src/Kernel/Write/File/Laws.antt =====
-- Reading a structure whole is the same as loading the members that are used.
use Prim.Native.String.{String}
use nhi.Prelude.{
  ℕ, zero, suc, ◌+◌, ◌*◌, ◌-◌, ◌≡◌, refl, ap, ◌∙◌, List, [], ◌∷◌, ◌++◌, some, arith, drop, length,
}
use nhi.Wire.{read_le}
use nhi.Kernel.Layout.{CType, size_of, offset_of}
use nhi.Kernel.Layout.Integers.{pointer, u32, gid_t}
use nhi.Kernel.Layout.Files.{struct_file, struct_dentry, struct_inode}
use nhi.Kernel.Layout.Laws.{offset_of_bounds}
use nhi.Kernel.Write.File.{Memory, bpf_core_read, bpf_core_read_str, read_member, dentry_at}

-- An integer of so many bytes at an address.
unfoldable pub load : Memory → ℕ → ℕ → ℕ
load memory zero address = 0
load memory (suc n) address = memory address + 256 * load memory n (address + 1)

drop-bpf_core_read :
    (memory : Memory) (o n address : ℕ)
    → drop o (bpf_core_read memory (o + n) address) ≡ bpf_core_read memory n (address + o)
unfolding bpf_core_read
drop-bpf_core_read memory zero n address =
    let e : 0 + n ≡ n = omega arith in
    let e' : address + 0 ≡ address = omega arith in rw (e, e') refl
drop-bpf_core_read memory (suc o) n address =
    let e : suc o + n ≡ suc (o + n) = omega arith in
    let e' : address + suc o ≡ address + 1 + o = omega arith in
    rw (e, e') (drop-bpf_core_read memory o n (address + 1))

read_le-bpf_core_read :
    (memory : Memory) (k n address : ℕ)
    → read_le k (bpf_core_read memory (k + n) address) ≡ load memory k address
unfolding bpf_core_read read_le load
read_le-bpf_core_read memory zero n address = refl
read_le-bpf_core_read memory (suc k) n address =
    let e : suc k + n ≡ suc (k + n) = omega arith in
    rw e (ap (λ (v : ℕ). memory address + 256 * v) (read_le-bpf_core_read memory k n (address + 1)))

-- A member that is read from the whole structure is what stands in memory at its offset.
read_member_loads :
    (memory : Memory) (address : ℕ) (names : List String) (t u : CType) (o k : ℕ)
    → offset_of names t ≡ some (o, u)
    → size_of u ≡ k
    → read_member names t (bpf_core_read memory (size_of t) address) ≡ load memory k (address + o)
unfolding read_member
read_member_loads memory address names t u o k e width =
    let rest : ℕ = size_of t - o - size_of u in
    let bounds = offset_of_bounds names t u o e in
    let whole : size_of t ≡ o + (size_of u + rest) = omega arith in
    rw (read_member, e, ← width)
      (ap (λ (k : ℕ). read_le (size_of u) (drop o (bpf_core_read memory k address))) whole
        ∙ ap (read_le (size_of u)) (drop-bpf_core_read memory o (size_of u + rest) address)
        ∙ read_le-bpf_core_read memory (size_of u) rest (address + o))

dentry_offset : offset_of ("f_path" ∷ "dentry" ∷ []) struct_file ≡ some (24, pointer)
unfolding offset_of
dentry_offset = refl

inode_offset : offset_of ("d_inode" ∷ []) struct_dentry ≡ some (48, pointer)
unfolding offset_of
inode_offset = refl

len_offset : offset_of ("d_name" ∷ "len" ∷ []) struct_dentry ≡ some (36, u32)
unfolding offset_of
len_offset = refl

name_offset : offset_of ("d_name" ∷ "name" ∷ []) struct_dentry ≡ some (40, pointer)
unfolding offset_of
name_offset = refl

gid_offset : offset_of ("i_gid" ∷ "val" ∷ []) struct_inode ≡ some (8, gid_t)
unfolding offset_of
gid_offset = refl

pointer_size : size_of pointer ≡ 8
unfolding size_of
pointer_size = refl

u32_size : size_of u32 ≡ 4
unfolding size_of
u32_size = refl

gid_size : size_of gid_t ≡ 4
unfolding size_of
gid_size = refl

-- For every memory and every file, the three structures that are read whole say the same as five
-- loads: of the pointer to the entry at 24 of the file, of the pointer to the inode at 48, the length
-- of the name at 36 and the pointer to it at 40 of the entry, and of the group at 8 of the inode.
-- The name is cut off behind 7 bytes.
pub dentry_at-load :
    (memory : Memory) (terminal : List ℕ) (address : ℕ)
    → let dentry = load memory 8 (address + 24) in
      let name = bpf_core_read_str memory 7 (load memory 8 (dentry + 40)) in
      dentry_at memory terminal address ≡ record {
        i_gid = load memory 4 (load memory 8 (dentry + 48) + 8);
        d_name_len = load memory 4 (dentry + 36);
        terminal = name ++ 0 ∷ drop (length name + 1) terminal;
      }
unfolding dentry_at
dentry_at-load memory terminal address =
    let dentry = load memory 8 (address + 24) in
    rw
      (
        dentry_at,
        read_member_loads memory address ("f_path" ∷ "dentry" ∷ []) struct_file pointer 24 8
            dentry_offset pointer_size,
        read_member_loads memory dentry ("d_inode" ∷ []) struct_dentry pointer 48 8 inode_offset
            pointer_size,
        read_member_loads memory dentry ("d_name" ∷ "len" ∷ []) struct_dentry u32 36 4 len_offset
            u32_size,
        read_member_loads memory dentry ("d_name" ∷ "name" ∷ []) struct_dentry pointer 40 8
            name_offset pointer_size,
        read_member_loads memory (load memory 8 (dentry + 48)) ("i_gid" ∷ "val" ∷ []) struct_inode
            gid_t 8 4 gid_offset gid_size,
      )
      refl
