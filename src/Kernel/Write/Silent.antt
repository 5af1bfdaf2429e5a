-- ===== src/Kernel/Write/Silent.antt =====
-- The loop over escape sequences: what it keeps, and a text with no escape character in it.
use nhi.Prelude.{
  ℕ, zero, suc, ◌+◌, ◌<◌, ◌≤◌, ◌≡◌, ◌≢◌, refl, true, false, List, [], ◌∷◌, ◌++◌, some, arith,
  length, length-set, get_elem?, All, ◌==◌, ne→==, Option-cases, Bool-cases, inl, inr, eq→==, ==→eq,
}
use nhi.Common.{Shell}
use nhi.Kernel.Maps.{bpf_map_update_elem}
use nhi.Kernel.Write.Terminal.{byte_at}
use nhi.Kernel.Write.Escape.{is_escape, erase_escape, escape_loop}

length-erase_escape : (output : List ℕ) (i : ℕ) → length (erase_escape output i) ≡ length output
unfolding erase_escape
length-erase_escape output i = simp length-set

-- The loop changes no length.
pub length-escape_loop :
    (shell_index count rounds i : ℕ) (shells : List Shell) (output : List ℕ)
    → length (escape_loop shell_index count rounds i shells output).output ≡ length output
unfolding escape_loop
length-escape_loop shell_index count zero i shells output = refl
length-escape_loop shell_index count (suc rounds) i shells output =
    let on = length-escape_loop shell_index count rounds (i + 1) shells output in
    elim (Option-cases (get_elem? shells shell_index)) [
      | inl e ↦ ground arith
      | inr (helper, e) ↦ ground (
        arith,
        length-escape_loop shell_index count rounds (i + 1)
            (bpf_map_update_elem shells shell_index (record helper { omit_write = 0 }))
            (erase_escape output i),
        length-erase_escape output i,
      )
    ]

pub is_escape-false : (output : List ℕ) (i : ℕ) → byte_at output i ≢ 27 → is_escape output i ≡ false
unfolding is_escape
is_escape-false output i h = rw (ne→== (byte_at output i) 27 h)

-- Without an escape character in front of `count` the loop finds nothing.
pub escape_loop-silent :
    (shell_index count rounds i : ℕ) (shells : List Shell) (output : List ℕ)
    → i ≤ count
    → ((j : ℕ) → i ≤ j → j < count → byte_at output j ≢ 27)
    → escape_loop shell_index count rounds i shells output
      ≡ record { returned = false; shells = shells; output = output }
unfolding escape_loop
escape_loop-silent shell_index count zero i shells output h quiet = refl
escape_loop-silent shell_index count (suc rounds) i shells output h quiet =
    elim (Bool-cases (i == count)) [
      | inl e ↦ ground arith
      | inr e ↦
          let here : is_escape output i ≡ false =
            is_escape-false output i (quiet i (omega arith) (ground arith)) in
          let rest =
            escape_loop-silent shell_index count rounds (i + 1) shells output (ground arith)
              (λ j a b. quiet j (omega arith) b) in
          ground arith
    ]

-- What holds of the elements of a list holds of its bytes, whatever follows it.
pub byte_at-append :
    (P : ℕ → Type 0) (xs ys : List ℕ) (j : ℕ) → All P xs → j < length xs → P (byte_at (xs ++ ys) j)
byte_at-append P [] ys j all h = absurd (omega arith)
byte_at-append P (x ∷ xs) ys zero all h = all.0
byte_at-append P (x ∷ xs) ys (suc j) all h = byte_at-append P xs ys j all.1 (omega arith)

-- The first sequence that switches to the alternate screen ends the loop.
pub escape_loop-enter :
    (shell_index count rounds i p : ℕ) (shells : List Shell) (output : List ℕ) (helper : Shell)
    → i ≤ p
    → p < count
    → p < i + rounds
    → ((j : ℕ) → i ≤ j → j < p → byte_at output j ≢ 27)
    → is_escape output p ≡ true
    → byte_at output (p + 7) ≡ b'h'
    → get_elem? shells shell_index ≡ some helper
    → escape_loop shell_index count rounds i shells output ≡ record {
      returned = true;
      shells = bpf_map_update_elem shells shell_index (record helper { omit_write = 1 });
      output = output;
    }
unfolding escape_loop
escape_loop-enter shell_index count zero i p shells output helper a b c quiet esc h g =
    absurd (omega arith)
escape_loop-enter shell_index count (suc rounds) i p shells output helper a b c quiet esc h g =
    let going : (i == count) ≡ false = ne→== i count (omega arith) in
    elim (Bool-cases (i == p)) [
      | inl e ↦
          let e' : i ≡ p = ==→eq i p e in
          let here : is_escape output i ≡ true = rw e' esc in
          let there : (byte_at output (i + 7) == b'h') ≡ true = rw e' (eq→== _ _ h) in
          rw (escape_loop, going, here, g, there)
      | inr e ↦
          let before : i < p = ground arith in
          let here : is_escape output i ≡ false =
            is_escape-false output i (quiet i (omega arith) before) in
          rw (escape_loop, going, here)
            (escape_loop-enter shell_index count rounds (i + 1) p shells output helper (omega arith)
              b (omega arith) (λ j x y. quiet j (omega arith) y) esc h g)
    ]
