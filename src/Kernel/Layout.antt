-- ===== src/Kernel/Layout.antt =====
-- The layout of C types on x86_64: sizes, alignments and the offsets of members. The programs of
-- daemon/src/nhi.bpf.c use it by `sizeof` and by every member that they name.
pub mod Integers
pub mod Locks
pub mod Files
pub mod Events
pub mod Signals
pub mod Shared
pub mod Laws
mod Tests
use text.Mathlib.Text.{◌==◌}
use Prim.Native.String.{String}
use Prim.Native.Nat.{max}
use nhi.Prelude.{ℕ, ◌+◌, ◌-◌, ◌*◌, ◌/◌, Bool, true, false, List, [], ◌∷◌, Option, none, some}

-- The integers, and the pointers, by their bytes.
pub data Width : Type 0 where
  one two four eight : Width

abbrev pub bytes_of : Width → ℕ
bytes_of one = 1
bytes_of two = 2
bytes_of four = 4
bytes_of eight = 8

infixr 20 ◌⨾◌
mutual
  pub data CType : Type 0 where
    scalar : Width → CType
    array : ℕ → CType → CType
    struct union : Members → CType

  pub data Member : Type 0 where
    member : String → CType → Member
    -- a structure or a union without a name, whose members are found from outside
    anonymous : CType → Member

  pub data Members : Type 0 where
    end : Members
    ◌⨾◌ : Member → Members → Members

-- The next multiple of an alignment.
unfoldable pub round_up : ℕ → ℕ → ℕ
round_up n a = (n + (a - 1)) / a * a

unfoldable mutual
  pub align_of : CType → ℕ
  align_of (scalar w) = bytes_of w
  align_of (array n t) = align_of t
  align_of (struct ms) = align_of_members ms
  align_of (union ms) = align_of_members ms

  pub align_of_members : Members → ℕ
  align_of_members end = 1
  align_of_members (member name t ⨾ ms) = max (align_of t) (align_of_members ms)
  align_of_members (anonymous t ⨾ ms) = max (align_of t) (align_of_members ms)

unfoldable mutual
  unfolding round_up align_of

  pub size_of : CType → ℕ
  size_of (scalar w) = bytes_of w
  size_of (array n t) = n * size_of t
  size_of (struct ms) = round_up (end_of 0 ms) (align_of_members ms)
  size_of (union ms) = round_up (largest ms) (align_of_members ms)

  -- Where the members of a structure end, the first of which comes behind `offset`.
  pub end_of : ℕ → Members → ℕ
  end_of offset end = offset
  end_of offset (member name t ⨾ ms) = end_of (round_up offset (align_of t) + size_of t) ms
  end_of offset (anonymous t ⨾ ms) = end_of (round_up offset (align_of t) + size_of t) ms

  pub largest : Members → ℕ
  largest end = 0
  largest (member name t ⨾ ms) = max (size_of t) (largest ms)
  largest (anonymous t ⨾ ms) = max (size_of t) (largest ms)

-- The offset moved by `offset`.
abbrev pub shift : ℕ → Option (ℕ × CType) → Option (ℕ × CType)
shift offset none = none
shift offset (some (o, t)) = some (offset + o, t)

abbrev pub or_else : Option (ℕ × CType) → Option (ℕ × CType) → Option (ℕ × CType)
or_else none other = other
or_else (some found) other = some found

unfoldable mutual
  unfolding round_up align_of size_of

  -- The offset and the type of a member.
  pub member_of : String → CType → Option (ℕ × CType)
  member_of name (scalar w) = none
  member_of name (array n t) = none
  member_of name (struct ms) = in_struct name 0 ms
  member_of name (union ms) = in_union name ms

  pub in_struct : String → ℕ → Members → Option (ℕ × CType)
  in_struct name offset end = none
  in_struct name offset (member name' t ⨾ ms) =
      let at = round_up offset (align_of t) in
      let rest = in_struct name (at + size_of t) ms in
      elim (name == name') [ true ↦ some (at, t) | false ↦ rest ]
  in_struct name offset (anonymous t ⨾ ms) =
      let at = round_up offset (align_of t) in
      or_else (shift at (member_of name t)) (in_struct name (at + size_of t) ms)

  pub in_union : String → Members → Option (ℕ × CType)
  in_union name end = none
  in_union name (member name' t ⨾ ms) =
      let rest = in_union name ms in elim (name == name') [ true ↦ some (0, t) | false ↦ rest ]
  in_union name (anonymous t ⨾ ms) = or_else (member_of name t) (in_union name ms)

-- offsetof, for a chain of members.
unfoldable pub offset_of : List String → CType → Option (ℕ × CType)
unfolding member_of
offset_of [] t = some (0, t)
offset_of (name ∷ names) t = elim (member_of name t) [
  | none ↦ none
  | some (o, u) ↦ shift o (offset_of names u)
]
