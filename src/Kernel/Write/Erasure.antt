-- ===== src/Kernel/Write/Erasure.antt =====
-- The sequence that leaves the alternate screen, as `ksys_write` of daemon/src/nhi.bpf.c finds it in the
-- output and erases it.
use nhi.Prelude.{
  ℕ, zero, suc, ◌+◌, ◌≡◌, ◌≢◌, refl, ap, true, List, [], ◌∷◌, ◌++◌, arith, length, drop, All, set,
  replicate,
}
use nhi.Kernel.Write.Terminal.{byte_at}
use nhi.Kernel.Write.Escape.{is_escape, erase_escape}
use nhi.Kernel.Write.Laws.{bytes_behind}

-- ESC [ ? 1 0 4 9 l, and what becomes of it.
abbrev pub leave_sequence : List ℕ
leave_sequence = 27 ∷ b'[' ∷ b'?' ∷ b'1' ∷ b'0' ∷ b'4' ∷ b'9' ∷ b'l' ∷ []

abbrev pub erased : List ℕ
erased = replicate 8 0

pub leave-is_escape :
    (xs ys : List ℕ)
    → (is_escape (xs ++ (leave_sequence ++ ys)) (length xs) ≡ true)
      × (byte_at (xs ++ (leave_sequence ++ ys)) (length xs + 7) ≡ b'l')
unfolding is_escape
leave-is_escape xs ys = (
  rw (
    is_escape,
    bytes_behind xs (leave_sequence ++ ys) 0 (length xs) (omega arith),
    bytes_behind xs (leave_sequence ++ ys) 1 (length xs + 1) refl,
    bytes_behind xs (leave_sequence ++ ys) 2 (length xs + 2) refl,
    bytes_behind xs (leave_sequence ++ ys) 3 (length xs + 3) refl,
    bytes_behind xs (leave_sequence ++ ys) 4 (length xs + 4) refl,
    bytes_behind xs (leave_sequence ++ ys) 5 (length xs + 5) refl,
    bytes_behind xs (leave_sequence ++ ys) 6 (length xs + 6) refl,
  ),
  bytes_behind xs (leave_sequence ++ ys) 7 (length xs + 7) refl,
)

set_behind :
    (xs ys : List ℕ) (k i v : ℕ) → i ≡ length xs + k → set (xs ++ ys) i v ≡ xs ++ set ys k v
set_behind [] ys k i v e = ap (λ j. set ys j v) (omega arith)
set_behind (x ∷ xs) ys k zero v e = absurd (omega arith)
set_behind (x ∷ xs) ys k (suc i) v e = ap (λ l. x ∷ l) (set_behind xs ys k i v (omega arith))

pub erase_escape_lem :
    (xs ys : List ℕ)
    → erase_escape (xs ++ (leave_sequence ++ ys)) (length xs) ≡ xs ++ (erased ++ ys)
unfolding erase_escape
erase_escape_lem xs ys =
    rw
      (
        erase_escape,
        set_behind xs (leave_sequence ++ ys) 0 (length xs) 0 (omega arith),
        set_behind xs (0 ∷ drop 1 leave_sequence ++ ys) 1 (length xs + 1) 0 refl,
        set_behind xs (0 ∷ 0 ∷ drop 2 leave_sequence ++ ys) 2 (length xs + 2) 0 refl,
        set_behind xs (0 ∷ 0 ∷ 0 ∷ drop 3 leave_sequence ++ ys) 3 (length xs + 3) 0 refl,
        set_behind xs (0 ∷ 0 ∷ 0 ∷ 0 ∷ drop 4 leave_sequence ++ ys) 4 (length xs + 4) 0 refl,
        set_behind xs (0 ∷ 0 ∷ 0 ∷ 0 ∷ 0 ∷ drop 5 leave_sequence ++ ys) 5 (length xs + 5) 0 refl,
        set_behind xs (0 ∷ 0 ∷ 0 ∷ 0 ∷ 0 ∷ 0 ∷ drop 6 leave_sequence ++ ys) 6 (length xs + 6) 0
            refl,
        set_behind xs (0 ∷ 0 ∷ 0 ∷ 0 ∷ 0 ∷ 0 ∷ 0 ∷ drop 7 leave_sequence ++ ys) 7 (length xs + 7) 0
            refl,
      )
      refl

pub quiet_zeros : (n : ℕ) → All (λ (c : ℕ). c ≢ 27) (replicate n 0)
quiet_zeros zero = tt
quiet_zeros (suc n) = ((λ e. omega arith), quiet_zeros n)
