-- ===== src/Kernel/Steps/Keeps.antt =====
-- Every program keeps the two tables, on every branch.
use nhi.Prelude.{
  ℕ, ◌<◌, ◌≡◌, ◌≢◌, refl, subst, Bool, ◌||◌, not, List, [], ◌∷◌, ◌++◌, none, some, inl, inr, length,
  get_elem?, ◌==◌, Option-cases, Bool-cases,
}
use nhi.Common.{
  Shell, Child, shell_pid_of, child_pid_of, shells_max_entries, children_max_entries, nhid_hash,
  sigusr1, sigusr2,
}
use nhi.Kernel.Maps.{Maps}
use nhi.Kernel.Scan.{Search, hit, free, exhausted, search_loop}
use nhi.Kernel.Table.{find_pid, IsTable}
use nhi.Kernel.Table.Lookup.{
  find_pid-some, search-some, free_loop-room, free_loop-full, set-IsTable, room-cases,
}
use nhi.Kernel.Table.Removal.{removal-some}
use nhi.Kernel.Table.Update.{removal-IsTable}
use nhi.Kernel.Tracks.{Tracks}
use nhi.Kernel.Kill.{kill_something_info}
use nhi.Kernel.Fork.{add_new_child_pid, add_if_parent_in_children, fork_tracepoint}
use nhi.Kernel.Exit.{remove_child, finish_shell_removal, remove_shell, do_exit}
use nhi.Kernel.Exit.Laws.{first_shell, not_a_shell, exit_without_shells}

-- The maps hold some table of shells and some table of children.
abbrev pub IsTracked : Maps → Type 0
IsTracked maps = (ss : List Shell) × (cs : List Child) × Tracks maps ss cs

module _ {maps : Maps} (tracked : IsTracked maps) where
  remove_child-IsTracked : (pid : ℕ) → pid ≢ 0 → IsTracked (remove_child pid maps)
  unfolding remove_child
  remove_child-IsTracked pid nz =
      let (ss, cs, t) = tracked in
      let (cs', t') = removal-IsTable t.children pid refl nz in
      (ss, cs', record { shells = t.shells; children = t' })

  pub kill-IsTracked :
      (room : Bool) (sig pid shell_pid : ℕ)
      → shell_pid ≢ 0
      → IsTracked (kill_something_info room sig pid shell_pid maps)
  unfolding kill_something_info
  kill-IsTracked room sig pid shell_pid nz =
      let (ss, cs, t) = tracked in
      let (cs', t') = removal-IsTable t.children shell_pid refl nz in
      elim (Bool-cases (not (pid == nhid_hash))) [
        | inl e ↦
            rw (kill_something_info, e)
              (ss, cs, record { shells = t.shells; children = t.children })
        | inr e ↦ elim (Bool-cases (sig == sigusr1 || sig == sigusr2)) [
          | inl e' ↦ elim (Bool-cases room) [
            | inl r ↦
                rw (kill_something_info, e, e', r)
                  (ss, cs', record { shells = t.shells; children = t' })
            | inr r ↦
                rw (kill_something_info, e, e', r)
                  (ss, cs', record { shells = t.shells; children = t' })
          ]
          | inr e' ↦ elim (Bool-cases room) [
            | inl r ↦
                rw (kill_something_info, e, e', r)
                  (ss, cs, record { shells = t.shells; children = t.children })
            | inr r ↦
                rw (kill_something_info, e, e', r)
                  (ss, cs, record { shells = t.shells; children = t.children })
          ]
        ]
      ]

-- A pid that no entry of the map has is in no entry of the table.
pub new-find_pid {ℓ} :
    {A : Type ℓ} {pid_of : A → ℕ} {empty : A} {size : ℕ} {m xs : List A}
    → IsTable pid_of empty size m xs
    → (pid : ℕ) → ((i : ℕ) (x : A) → get_elem? m i ≡ some x → pid_of x ≢ pid)
    → find_pid pid_of pid xs ≡ none
new-find_pid {pid_of = pid_of} {xs = xs} t pid new = elim (Option-cases (find_pid pid_of pid xs)) [
  | inl e ↦ e
  | inr (x, e) ↦
      let (i, p, h, g) = search-some t pid x e in
      let (a, b, q, o, same) = find_pid-some pid_of pid xs x e in absurd (new i x g same)
]

module _ {maps : Maps} (tracked : IsTracked maps) where
  -- The end of the program, for a process that is new.
  add-IsTracked :
      (room : Bool) (child_pid shell : ℕ)
      → child_pid ≢ 0
      → find_pid child_pid_of child_pid tracked.1 ≡ none
      → IsTracked (add_new_child_pid room child_pid shell maps)
  unfolding add_new_child_pid
  add-IsTracked room child_pid shell nz fresh =
      let (ss, cs, t) = tracked in
      let entry : Child = record { child_pid = child_pid; shell_pid = shell } in
      elim (room-cases t.children) [
        | inr full ↦
            rw (add_new_child_pid, free_loop-full t.children full)
              (ss, cs, record { shells = t.shells; children = t.children })
        | inl space ↦
            let tracks = λ (maps' : Maps). Tracks maps' ss (cs ++ entry ∷ []) in
            let table = set-IsTable t.children entry space nz fresh in
            elim (Bool-cases room) [
              | inl r ↦
                  rw (add_new_child_pid, free_loop-room t.children refl space, r)
                    (ss, cs ++ entry ∷ [], record { shells = t.shells; children = table })
              | inr r ↦
                  rw (add_new_child_pid, free_loop-room t.children refl space, r)
                    (ss, cs ++ entry ∷ [], record { shells = t.shells; children = table })
            ]
      ]

  add_if_parent-IsTracked :
      (room : Bool) (child_pid parent_pid : ℕ)
      → child_pid ≢ 0
      → find_pid child_pid_of child_pid tracked.1 ≡ none
      → (r : Search Child)
      → search_loop child_pid_of parent_pid children_max_entries 0 maps.children ≡ r
      → IsTracked (add_if_parent_in_children room child_pid parent_pid maps)
  unfolding add_if_parent_in_children
  add_if_parent-IsTracked room child_pid parent_pid nz fresh (hit i c) e =
      rw (add_if_parent_in_children, e) (add-IsTracked room child_pid c.shell_pid nz fresh)
  add_if_parent-IsTracked room child_pid parent_pid nz fresh (free i) e =
      rw (add_if_parent_in_children, e) tracked
  add_if_parent-IsTracked room child_pid parent_pid nz fresh exhausted e =
      rw (add_if_parent_in_children, e) (add-IsTracked room child_pid parent_pid nz fresh)

  fork_cases :
      (room : Bool) (child_pid parent_pid : ℕ)
      → child_pid ≢ 0
      → find_pid child_pid_of child_pid tracked.1 ≡ none
      → (r : Search Shell)
      → search_loop shell_pid_of parent_pid shells_max_entries 0 maps.shells ≡ r
      → IsTracked (fork_tracepoint room parent_pid child_pid maps)
  unfolding fork_tracepoint
  fork_cases room child_pid parent_pid nz fresh (hit i s) e =
      rw (fork_tracepoint, e) (add-IsTracked room child_pid parent_pid nz fresh)
  fork_cases room child_pid parent_pid nz fresh (free i) e =
      rw (fork_tracepoint, e) (add_if_parent-IsTracked room child_pid parent_pid nz fresh _ refl)
  fork_cases room child_pid parent_pid nz fresh exhausted e =
      rw (fork_tracepoint, e) (add_if_parent-IsTracked room child_pid parent_pid nz fresh _ refl)

  pub fork-IsTracked :
      (room : Bool) (parent_pid child_pid : ℕ)
      → child_pid ≢ 0
      → ((i : ℕ) (c : Child) → get_elem? maps.children i ≡ some c → c.child_pid ≢ child_pid)
      → IsTracked (fork_tracepoint room parent_pid child_pid maps)
  fork-IsTracked room parent_pid child_pid nz new =
      fork_cases room child_pid parent_pid nz (new-find_pid tracked.2.children child_pid new) _ refl

  exit_shell-IsTracked :
      (room : Bool) (pid : ℕ) (s : Shell)
      → pid ≢ 0
      → length tracked.0 < shells_max_entries
      → find_pid shell_pid_of pid tracked.0 ≡ some s
      → IsTracked (remove_shell room pid maps)
  unfolding remove_shell finish_shell_removal
  exit_shell-IsTracked room pid s nz space e =
      let (ss, cs, t) = tracked in
      let (p, l, (ss', t', perm)) = removal-some t.shells pid refl nz space s e in
      elim (Bool-cases room) [
        | inl r ↦ rw (remove_shell, l, r) (ss', cs, record { shells = t'; children = t.children })
        | inr r ↦ rw (remove_shell, l, r) (ss', cs, record { shells = t'; children = t.children })
      ]

  exit_cases :
      (room : Bool) (pid : ℕ) (ss : List Shell)
      → tracked.0 ≡ ss
      → pid ≢ 0
      → IsTracked (do_exit room pid maps)
  exit_cases room pid [] e nz =
      let t = subst (λ ss. Tracks maps ss tracked.1) e tracked.2 in
      rw (exit_without_shells maps tracked.1 room pid t) tracked
  exit_cases room pid (x ∷ xs) e nz =
      let ne : tracked.0 ≢ [] = λ n. cc in
      let t = tracked.2 in
      elim (Option-cases (find_pid shell_pid_of pid tracked.0)) [
        | inl miss ↦
            rw (not_a_shell maps tracked.0 tracked.1 room pid t nz ne (inl miss))
              (remove_child-IsTracked tracked pid nz)
        | inr (s, found) ↦ elim (room-cases t.shells) [
          | inl space ↦
              rw (first_shell t tracked.0 room pid refl ne)
                (exit_shell-IsTracked room pid s nz space found)
          | inr full ↦
              rw (not_a_shell maps tracked.0 tracked.1 room pid t nz ne (inr full))
                (remove_child-IsTracked tracked pid nz)
        ]
      ]

  pub exit-IsTracked : (room : Bool) (pid : ℕ) → pid ≢ 0 → IsTracked (do_exit room pid maps)
  exit-IsTracked room pid nz = exit_cases room pid tracked.0 refl nz
