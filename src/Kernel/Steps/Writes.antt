-- ===== src/Kernel/Steps/Writes.antt =====
-- `ksys_write` and the entry of a new shell keep the two tables: a write changes `omit_write` at most,
-- in an entry that is taken.
use mathlib.Core.Option.{some-injective}
use nhi.Prelude.{
  ℕ, ◌<◌, ◌≤◌, ◌≡◌, ◌≢◌, refl, sym, ap, subst, ◌∙◌, ◌-◌, Bool, List, [], ◌∷◌, ◌++◌, none, some, ◌⊎◌,
  inl, inr, arith, length, get_elem?, Option-cases, Bool-cases, set,
}
use nhi.Common.{
  Shell, zero_shell, zero_child, shell_pid_of, child_pid_of, children_max_entries,
  shells_max_entries,
}
use nhi.Kernel.Maps.{Maps}
use nhi.Kernel.Scan.{free_loop}
use nhi.Kernel.Table.{find_pid, IsTable}
use nhi.Kernel.Table.Lookup.{
  search-some, search-none, free_loop-room, free_loop-full, set-IsTable, room-cases,
}
use nhi.Kernel.Write.Escape.{EscapeEnd, escape_loop}
use nhi.Kernel.Write.Cases.{write_to_file_cases, ksys_write_cases}
use nhi.Kernel.Write.{
  Kernel, WriteCall, Target, clamp_count, fill, with_end, find_target, emit, finish_write,
  write_output, ksys_write,
}
use nhi.Kernel.Steps.Keeps.{IsTracked, new-find_pid}
use nhi.Kernel.Steps.Held.{IsHeld, escape_loop_keeps, change-IsHeld}

-- Where the search for the shell ends, when the program goes on.
find_target_index :
    {m ss : List Shell} (pid : ℕ) (target : Target)
    → IsTable shell_pid_of zero_shell shells_max_entries m ss
    → find_target pid m ≡ some target
    → (target.shell_index < length ss) ⊎ (shells_max_entries ≤ target.shell_index)
unfolding find_target
find_target_index {m} {ss} pid target t e = elim (Option-cases (find_pid shell_pid_of pid ss)) [
  | inr (s, f) ↦
      let (i, l, h, g) = search-some t pid s f in
      let at : find_target pid m
          ≡ some (record { shell_index = i; shell = some s; indicator = s.indicator }) =
        rw (find_target, l) in
      let same = some-injective _ _ (sym e ∙ at) in
      inl (omega (arith, h, ap (λ (g : Target). g.shell_index) same))
  | inl f ↦ elim (search-none t pid refl f) [
    | inl (l, room) ↦
        let gone : find_target pid m ≡ none = rw (find_target, l) in absurd (cc (e, gone))
    | inr (l, full) ↦
        let at : find_target pid m
            ≡ some (record {
              shell_index = shells_max_entries;
              shell = get_elem? m (shells_max_entries - 1);
              indicator = 0;
            }) =
          rw (find_target, l) in
        let same = some-injective _ _ (sym e ∙ at) in
        inr (omega (arith, ap (λ (g : Target). g.shell_index) same))
  ]
]

pub same_tables :
    {maps maps' : Maps}
    → maps'.shells ≡ maps.shells
    → maps'.children ≡ maps.children
    → IsTracked maps
    → IsTracked maps'
same_tables e e' (ss, cs, t) = (
  ss,
  cs,
  record {
    shells = subst (λ m. IsTable shell_pid_of zero_shell shells_max_entries m ss) (sym e) t.shells;
    children =
        subst (λ m. IsTable child_pid_of zero_child children_max_entries m cs) (sym e') t.children;
  },
)

pub emit_tables :
    (room : Bool) (shell_index indicator count : ℕ) (output : List ℕ) (maps : Maps)
    → let after = emit room shell_index indicator count output maps in
      (after.shells ≡ maps.shells) × (after.children ≡ maps.children)
unfolding emit
emit_tables room shell_index indicator count output maps = (ground arith, ground arith)

module _ {maps : Maps} (tracked : IsTracked maps) where
  finish_write-IsTracked :
      (room : Bool) (target : Target) (count : ℕ) (end : EscapeEnd)
      → IsHeld target.shell_index end.shells
      → IsTracked (finish_write room target count end maps)
  unfolding finish_write
  finish_write-IsTracked room target count end (ss, t, held) =
      let (ss', cs, tracks) = tracked in
      let kept : IsTracked (with_end target end maps) =
        (ss, cs, record { shells = t; children = tracks.children }) in
      elim (Bool-cases end.returned) [
        | inl r ↦ rw (finish_write, r) kept
        | inr r ↦
            let (e, e') =
              emit_tables room target.shell_index target.indicator count end.output
                (with_end target end maps) in
            rw (finish_write, r) (same_tables e e' kept)
      ]

  write_output-IsTracked :
      (kernel : Kernel) (call : WriteCall) (target : Target)
      → IsHeld target.shell_index maps.shells
      → IsTracked (write_output kernel call target maps)
  unfolding write_output
  write_output-IsTracked kernel call target held =
      elim (Option-cases (get_elem? maps.ksys_write_event 0)) [
        | inl e ↦ rw (write_output, e) tracked
        | inr (scratch, e) ↦
            let count = clamp_count call.count in
            let output = fill call.fd count call.buf scratch.output in
            rw (write_output, e)
              (finish_write-IsTracked kernel.room target count
                (escape_loop target.shell_index count 511 1 maps.shells output)
                (escape_loop_keeps (IsHeld target.shell_index) target.shell_index count
                  (change-IsHeld target.shell_index) 511 1 maps.shells output held))
      ]

module _ {maps : Maps} (tracked : IsTracked maps) where
  pub ksys_write-IsTracked :
      (kernel : Kernel) (call : WriteCall) → IsTracked (ksys_write kernel call maps)
  ksys_write-IsTracked kernel call =
      let (ss, cs, t) = tracked in
      ksys_write_cases IsTracked kernel call maps tracked λ nz pid target shell e.
        let held : IsHeld target.shell_index maps.shells =
          (ss, t.shells, find_target_index pid target t.shells e) in
        write_to_file_cases IsTracked kernel call maps target shell tracked
          (λ d. same_tables refl refl tracked)
          λ d. write_output-IsTracked (same_tables refl refl tracked) kernel call target held

  pub registered-IsTracked :
      (shell : Shell) (i : ℕ)
      → shell.shell_pid ≢ 0
      → ((j : ℕ) (s : Shell) → get_elem? maps.shells j ≡ some s → s.shell_pid ≢ shell.shell_pid)
      → free_loop shell_pid_of shells_max_entries 0 maps.shells ≡ some i
      → IsTracked (record maps { shells = set maps.shells i shell })
  registered-IsTracked shell i nz new e =
      let (ss, cs, t) = tracked in
      let fresh = new-find_pid t.shells shell.shell_pid new in
      elim (room-cases t.shells) [
        | inr full ↦ absurd (cc (e, free_loop-full t.shells full))
        | inl room ↦
            let at : length ss ≡ i = grind (arith, e, free_loop-room t.shells refl room) in
            (
              ss ++ shell ∷ [],
              cs,
              record {
                shells =
                    subst
                      (λ k.
                        IsTable shell_pid_of zero_shell shells_max_entries (set maps.shells k shell)
                          (ss ++ shell ∷ []))
                      at (set-IsTable t.shells shell room nz fresh);
                children = t.children;
              },
            )
      ]
