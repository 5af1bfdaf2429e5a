-- ===== src/Kernel/Steps/Held.antt =====
-- What the loop over escape sequences of `ksys_write` keeps: `omit_write` changes only in an entry that
-- is taken.
use nhi.Prelude.{
  ℕ, zero, suc, ◌+◌, ◌<◌, ◌≤◌, ◌≡◌, refl, ap, ◌∙◌, List, [], ◌∷◌, some, ◌⊎◌, inl, inr, arith,
  length, length-set, length-append, length-replicate, get_elem?, ◌==◌, Option-cases, Bool-cases,
  set, replicate,
}
use nhi.Common.{Shell, zero_shell, shell_pid_of, shells_max_entries}
use nhi.Kernel.Table.{IsTable}
use nhi.Kernel.Table.Update.{change-IsTable}
use nhi.Kernel.Write.Terminal.{byte_at}
use nhi.Kernel.Write.Escape.{is_escape, erase_escape, escape_loop}

-- Whatever the updates of `omit_write` keep, the loop over escape sequences keeps.
module _ (P : List Shell → Type 0) (shell_index count : ℕ)
    (change : (shells : List Shell) (helper : Shell) (omit_write : ℕ)
      → P shells
      → get_elem? shells shell_index ≡ some helper
      → P (set shells shell_index (record helper { omit_write = omit_write }))) where
  pub escape_loop_keeps :
      (rounds i : ℕ) (shells : List Shell) (output : List ℕ)
      → P shells
      → P (escape_loop shell_index count rounds i shells output).shells
  unfolding escape_loop
  escape_loop_keeps zero i shells output p = p
  escape_loop_keeps (suc rounds) i shells output p =
      let on = escape_loop_keeps rounds (i + 1) in
      elim (Bool-cases (i == count)) [
        | inl stop ↦ rw (escape_loop, stop) p
        | inr go ↦ elim (Bool-cases (is_escape output i)) [
          | inr plain ↦ rw (escape_loop, go, plain) (on shells output p)
          | inl esc ↦ elim (Option-cases (get_elem? shells shell_index)) [
            | inl e ↦ rw (escape_loop, go, esc, e) p
            | inr (helper, e) ↦ elim (Bool-cases (byte_at output (i + 7) == b'h')) [
              | inl h ↦ rw (escape_loop, go, esc, e, h) (change shells helper 1 p e)
              | inr nh ↦ elim (Bool-cases (byte_at output (i + 7) == b'l')) [
                | inl l ↦
                    rw (escape_loop, go, esc, e, nh, l)
                      (on (set shells shell_index (record helper { omit_write = 0 }))
                        (erase_escape output i) (change shells helper 0 p e))
                | inr nl ↦ rw (escape_loop, go, esc, e, nh, nl) (on shells output p)
              ]
            ]
          ]
        ]
      ]

-- A table of shells in which the index is one of a taken entry, or past the last.
abbrev pub IsHeld : ℕ → List Shell → Type 0
IsHeld i m =
    (ss : List Shell) × IsTable shell_pid_of zero_shell shells_max_entries m ss
    × ((i < length ss) ⊎ (shells_max_entries ≤ i))

get_elem?-bound {ℓ} :
    {A : Type ℓ} (xs : List A) (i : ℕ) (x : A) → get_elem? xs i ≡ some x → i < length xs
get_elem?-bound [] i x e = cc
get_elem?-bound (y ∷ xs) zero x e = omega arith
get_elem?-bound (y ∷ xs) (suc i) x e = omega (arith, get_elem?-bound xs i x e)

length-table :
    {m ss : List Shell}
    → IsTable shell_pid_of zero_shell shells_max_entries m ss
    → length m ≡ shells_max_entries
length-table {m} {ss} t =
    ap length t.layout
    ∙ omega (
      arith,
      t.total,
      length-append ss (replicate t.spare zero_shell),
      length-replicate t.spare zero_shell,
    )

pub change-IsHeld :
    (i : ℕ) (shells : List Shell) (helper : Shell) (omit_write : ℕ)
    → IsHeld i shells
    → get_elem? shells i ≡ some helper
    → IsHeld i (set shells i (record helper { omit_write = omit_write }))
change-IsHeld i shells helper omit_write (ss, t, inr past) e =
    absurd (omega (arith, get_elem?-bound shells i helper e, length-table t))
change-IsHeld i shells helper omit_write (ss, t, inl taken) e =
    let v : Shell = record helper { omit_write = omit_write } in
    (set ss i v, change-IsTable t i helper v taken e refl, inl (omega (arith, length-set ss i v)))
