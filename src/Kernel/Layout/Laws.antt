-- ===== src/Kernel/Layout/Laws.antt =====
-- A chain of members lies within its structure: a lemma for the reads of the file.
use Prim.Native.Nat.{max}
use Prim.Native.String.{String}
use native.Mathlib.Nat.{lt-mul-div-succ, mul_comm}
use text.Mathlib.Text.{◌==◌}
use nhi.Prelude.{
  ℕ, ◌+◌, ◌-◌, ◌/◌, ◌≤◌, ◌≡◌, Bool, true, false, List, [], ◌∷◌, Option, none, some, arith, subst,
}
use nhi.Kernel.Layout.{
  CType, Members, one, two, four, eight, scalar, array, struct, union, member, anonymous, end, ◌⨾◌,
  round_up, align_of, align_of_members, size_of, end_of, largest, member_of, in_struct, in_union,
  offset_of, shift, or_else,
}

pub le-round_up : (n a : ℕ) → 1 ≤ a → n ≤ round_up n a
unfolding round_up
le-round_up n a h = omega (
  arith,
  lt-mul-div-succ (n + (a - 1)) {b = a} h,
  mul_comm a ((n + (a - 1)) / a + 1),
  mul_comm ((n + (a - 1)) / a) a,
)

mutual
  unfolding align_of

  align_pos : (t : CType) → 1 ≤ align_of t
  align_pos (scalar one) = omega arith
  align_pos (scalar two) = omega arith
  align_pos (scalar four) = omega arith
  align_pos (scalar eight) = omega arith
  align_pos (array n t) = align_pos t
  align_pos (struct ms) = align_members_pos ms
  align_pos (union ms) = align_members_pos ms

  align_members_pos : (ms : Members) → 1 ≤ align_of_members ms
  align_members_pos end = omega arith
  align_members_pos (member name t ⨾ ms) = omega (arith, align_pos t)
  align_members_pos (anonymous t ⨾ ms) = omega (arith, align_pos t)

le-end_of : (offset : ℕ) (ms : Members) → offset ≤ end_of offset ms
unfolding end_of
le-end_of offset end = omega arith
le-end_of offset (member name t ⨾ ms) = omega (
  arith,
  le-round_up offset (align_of t) (align_pos t),
  le-end_of (round_up offset (align_of t) + size_of t) ms,
)
le-end_of offset (anonymous t ⨾ ms) = omega (
  arith,
  le-round_up offset (align_of t) (align_pos t),
  le-end_of (round_up offset (align_of t) + size_of t) ms,
)

-- What is found, if anything is, ends at the limit or before it.
abbrev Within : ℕ → Option (ℕ × CType) → Type 0
Within limit none = Unit
Within limit (some (o, t)) = o + size_of t ≤ limit

Within-mono : (k l : ℕ) (r : Option (ℕ × CType)) → k ≤ l → Within k r → Within l r
Within-mono k l none h w = tt
Within-mono k l (some (o, t)) h w = omega arith

Within-shift : (d l : ℕ) (r : Option (ℕ × CType)) → Within l r → Within (d + l) (shift d r)
Within-shift d l none w = tt
Within-shift d l (some (o, t)) w = omega arith

Within-or_else :
    (l : ℕ) (r r' : Option (ℕ × CType)) → Within l r → Within l r' → Within l (or_else r r')
Within-or_else l none r' w w' = w'
Within-or_else l (some p) r' w w' = w

Within-named :
    (l : ℕ) (b : Bool) (found : ℕ × CType) (rest : Option (ℕ × CType))
    → Within l (some found)
    → Within l rest
    → Within l (elim b [ true ↦ some found | false ↦ rest ])
Within-named l true found rest w w' = w
Within-named l false found rest w w' = w'

mutual
  unfolding size_of member_of

  member-Within : (name : String) (t : CType) → Within (size_of t) (member_of name t)
  member-Within name (scalar w) = tt
  member-Within name (array n t) = tt
  member-Within name (struct ms) =
      Within-mono (end_of 0 ms) (round_up (end_of 0 ms) (align_of_members ms)) (in_struct name 0 ms)
        (le-round_up (end_of 0 ms) (align_of_members ms) (align_members_pos ms))
        (struct-Within name 0 ms)
  member-Within name (union ms) =
      Within-mono (largest ms) (round_up (largest ms) (align_of_members ms)) (in_union name ms)
        (le-round_up (largest ms) (align_of_members ms) (align_members_pos ms))
        (union-Within name ms)

  struct-Within :
      (name : String) (offset : ℕ) (ms : Members)
      → Within (end_of offset ms) (in_struct name offset ms)
  struct-Within name offset end = tt
  struct-Within name offset (member name' t ⨾ ms) =
      let at = round_up offset (align_of t) in
      Within-named (end_of (at + size_of t) ms) (name == name') (at, t)
        (in_struct name (at + size_of t) ms) (le-end_of (at + size_of t) ms)
        (struct-Within name (at + size_of t) ms)
  struct-Within name offset (anonymous t ⨾ ms) =
      let at = round_up offset (align_of t) in
      let l = end_of (at + size_of t) ms in
      Within-or_else l (shift at (member_of name t)) (in_struct name (at + size_of t) ms)
        (Within-mono (at + size_of t) l (shift at (member_of name t))
          (le-end_of (at + size_of t) ms)
          (Within-shift at (size_of t) (member_of name t) (member-Within name t)))
        (struct-Within name (at + size_of t) ms)

  union-Within : (name : String) (ms : Members) → Within (largest ms) (in_union name ms)
  union-Within name end = tt
  union-Within name (member name' t ⨾ ms) =
      let l = max (size_of t) (largest ms) in
      Within-named l (name == name') (0, t) (in_union name ms) (omega arith)
        (Within-mono (largest ms) l (in_union name ms) (omega arith) (union-Within name ms))
  union-Within name (anonymous t ⨾ ms) =
      let l = max (size_of t) (largest ms) in
      Within-or_else l (member_of name t) (in_union name ms)
        (Within-mono (size_of t) l (member_of name t) (omega arith) (member-Within name t))
        (Within-mono (largest ms) l (in_union name ms) (omega arith) (union-Within name ms))

Within-step :
    (l : ℕ) (r : Option (ℕ × CType)) (next : CType → Option (ℕ × CType))
    → Within l r
    → ((u : CType) → Within (size_of u) (next u))
    → Within l (elim r [ none ↦ none | some (o, u) ↦ shift o (next u) ])
Within-step l none next w all = tt
Within-step l (some (o, u)) next w all =
    Within-mono (o + size_of u) l (shift o (next u)) w (Within-shift o (size_of u) (next u) (all u))

chain-Within : (names : List String) (t : CType) → Within (size_of t) (offset_of names t)
unfolding offset_of
chain-Within [] t = omega arith
chain-Within (name ∷ names) t =
    Within-step (size_of t) (member_of name t) (offset_of names) (member-Within name t)
      (chain-Within names)

-- Whatever chain of members is named of whatever type: if it is found, what it names lies within
-- the type's size.
pub offset_of_bounds :
    (names : List String) (t u : CType) (o : ℕ)
    → offset_of names t ≡ some (o, u)
    → o + size_of u ≤ size_of t
offset_of_bounds names t u o e = subst (Within (size_of t)) e (chain-Within names t)
