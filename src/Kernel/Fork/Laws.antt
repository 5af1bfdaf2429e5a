-- ===== src/Kernel/Fork/Laws.antt =====
-- Which new processes are recorded as children, and for which shell.
use nhi.Prelude.{
  ℕ, ◌<◌, ◌≡◌, ◌≢◌, refl, Bool, true, List, [], ◌∷◌, ◌++◌, Option, none, some, arith, length, inl,
  inr, Option-cases,
}
use nhi.Common.{Shell, Child, child_created, child_pid_of, shell_pid_of, children_max_entries}
use nhi.Kernel.Maps.{Maps}
use nhi.Kernel.Table.{find_pid}
use nhi.Kernel.Table.Lookup.{
  search-some, search-none, search-none_room, free_loop-room, free_loop-full, set-IsTable,
}
use nhi.Kernel.Tracks.{Tracks, owner, owner-shell, owner-child, owner-untracked}
use nhi.Kernel.Fork.{add_new_child_pid, add_if_parent_in_children, fork_tracepoint}

-- The entry that a child of the shell gets.
abbrev pub child_of : ℕ → ℕ → Child
child_of child_pid shell = record { child_pid = child_pid; shell_pid = shell }

-- What a fork should do: a child of a tracked process is recorded for its shell, and any other
-- process is not.
abbrev pub Recorded : Maps → Maps → List Shell → List Child → ℕ → Option ℕ → Type 0
Recorded maps maps' ss cs child_pid none = maps' ≡ maps
Recorded maps maps' ss cs child_pid (some shell) =
    Tracks maps' ss (cs ++ child_of child_pid shell ∷ [])
    × (maps'.ring_buffer ≡ maps.ring_buffer ++ child_created shell ∷ [])

module _ {maps : Maps} {ss : List Shell} {cs : List Child} (t : Tracks maps ss cs)
    (child_pid : ℕ) where
  add_new_child_pid-full :
      (room : Bool) (shell : ℕ)
      → length cs ≡ children_max_entries
      → add_new_child_pid room child_pid shell maps ≡ maps
  unfolding add_new_child_pid
  add_new_child_pid-full room shell full = rw (free_loop-full t.children full, add_new_child_pid)

  module _ (room : length cs < children_max_entries) (nz : child_pid ≢ 0)
      (fresh : find_pid child_pid_of child_pid cs ≡ none) where
    add_new_child_pid-room :
        (shell : ℕ)
        → Recorded maps (add_new_child_pid true child_pid shell maps) ss cs child_pid (some shell)
    unfolding add_new_child_pid
    add_new_child_pid-room shell =
        rw (free_loop-room t.children refl room, add_new_child_pid)
          (
            record {
              shells = t.shells;
              children = set-IsTable t.children (child_of child_pid shell) room nz fresh;
            },
            refl,
          )

    add_if_parent_in_children-room :
        (parent_pid : ℕ)
        → find_pid shell_pid_of parent_pid ss ≡ none
        → Recorded maps
            (add_if_parent_in_children true child_pid parent_pid maps)
            ss
            cs
            child_pid
            (owner ss cs parent_pid)
    unfolding add_if_parent_in_children
    add_if_parent_in_children-room parent_pid e =
        elim (Option-cases (find_pid child_pid_of parent_pid cs)) [
          | inl e' ↦
              rw
                (
                  owner-untracked ss cs parent_pid e e',
                  search-none_room t.children parent_pid refl e' room,
                  add_if_parent_in_children,
                )
                refl
          | inr (c, e') ↦
              let (i, p, h, g) = search-some t.children parent_pid c e' in
              rw (owner-child ss cs parent_pid e e', p, add_if_parent_in_children)
                (add_new_child_pid-room c.shell_pid)
        ]

-- A process that is new and not 0 is created while `children` has a free entry and
-- the ring buffer has room. If its parent is a
-- tracked shell, or a child of one, it is recorded at the end of the children of that shell, and one
-- event tells the shell; if not, nothing changes.
pub fork_records :
    (maps : Maps) (ss : List Shell) (cs : List Child) (parent_pid child_pid : ℕ)
    → Tracks maps ss cs
    → length cs < children_max_entries
    → child_pid ≢ 0
    → find_pid child_pid_of child_pid cs ≡ none
    → Recorded maps
        (fork_tracepoint true parent_pid child_pid maps)
        ss
        cs
        child_pid
        (owner ss cs parent_pid)
unfolding fork_tracepoint
fork_records maps ss cs parent_pid child_pid t room nz fresh =
    elim (Option-cases (find_pid shell_pid_of parent_pid ss)) [
      | inl e ↦ elim (search-none t.shells parent_pid refl e) [
        | inl (p, h) ↦
            rw (p, fork_tracepoint)
              (add_if_parent_in_children-room t child_pid room nz fresh parent_pid e)
        | inr (p, h) ↦
            rw (p, fork_tracepoint)
              (add_if_parent_in_children-room t child_pid room nz fresh parent_pid e)
      ]
      | inr (s, e) ↦
          let (i, p, h, g) = search-some t.shells parent_pid s e in
          rw (owner-shell ss cs parent_pid e, p, fork_tracepoint)
            (add_new_child_pid-room t child_pid room nz fresh parent_pid)
    ]

-- Once `children` is full, no fork changes anything, whichever process forks.
pub fork_full :
    (maps : Maps) (ss : List Shell) (cs : List Child) (room : Bool) (parent_pid child_pid : ℕ)
    → Tracks maps ss cs
    → length cs ≡ children_max_entries
    → fork_tracepoint room parent_pid child_pid maps ≡ maps
unfolding fork_tracepoint add_if_parent_in_children
fork_full maps ss cs room parent_pid child_pid t full =
    grind (arith, λ (shell : ℕ). add_new_child_pid-full t child_pid room shell full)
