-- ===== src/Kernel/Exit/Laws.antt =====
-- What the end of a process leaves in the tables.
use nhi.Prelude.{
  ℕ, ◌<◌, ◌≡◌, ◌≢◌, refl, ap, subst, Bool, true, List, [], ◌∷◌, ◌++◌, none, some, arith, length,
  inl, inr, ◌⊎◌, Perm, ne→==, get_elem?, At, All,
}
use nhi.Common.{
  Shell, Child, shell_exited, zero_shell, shell_pid_of, child_pid_of, shells_max_entries,
  children_max_entries,
}
use nhi.Kernel.Maps.{Maps}
use nhi.Kernel.Scan.{finish_removal}
use nhi.Kernel.Scan.Laws.{IsUsed}
use nhi.Kernel.Table.{find_pid, others}
use nhi.Kernel.Table.Lookup.{At-table, get_elem?-free, room-cases}
use nhi.Kernel.Table.Removal.{removal-none, removal-some, removal-full, finish_removal-IsTable}
use nhi.Kernel.Tracks.{Tracks}
use nhi.Kernel.Exit.{remove_child, finish_shell_removal, remove_shell, do_exit}

module _ {maps : Maps} {ss : List Shell} {cs : List Child} (t : Tracks maps ss cs) where
  pub first_shell :
      (ss' : List Shell) (room : Bool) (pid : ℕ)
      → ss ≡ ss'
      → ss' ≢ []
      → do_exit room pid maps ≡ remove_shell room pid maps
  unfolding do_exit
  first_shell [] room pid e h = absurd (h refl)
  first_shell (s ∷ rest) room pid e h =
      let at = subst (At maps.shells 0) e (At-table t.shells) in
      let used = subst (All (IsUsed shell_pid_of)) e t.shells.used in
      rw (at.0, do_exit, ne→== s.shell_pid 0 used.0)

  first_free : ss ≡ [] → (room : Bool) (pid : ℕ) → do_exit room pid maps ≡ maps
  unfolding do_exit
  first_free e room pid =
      let at =
        subst (λ l. get_elem? maps.shells (length l) ≡ some zero_shell) e
          (get_elem?-free t.shells (omega (arith, ap length e))) in
      rw (at, do_exit)

  some-ne-nil : (pid : ℕ) (s : Shell) → find_pid shell_pid_of pid ss ≡ some s → ss ≢ []
  unfolding find_pid
  some-ne-nil pid s e n = cc (ap (find_pid shell_pid_of pid) n)

-- A shell ends, its table is not full, and the ring buffer has room. Then exactly that shell leaves
-- `shells`, the children stay, and one event tells its indicator.
pub exit_shell :
    (maps : Maps) (ss : List Shell) (cs : List Child) (pid : ℕ) (s : Shell)
    → Tracks maps ss cs
    → length ss < shells_max_entries
    → pid ≢ 0
    → find_pid shell_pid_of pid ss ≡ some s
    → let maps' = do_exit true pid maps in
      ((ss' : List Shell) × Tracks maps' ss' cs × Perm (others shell_pid_of pid ss) ss')
      × (maps'.ring_buffer
          ≡ maps.ring_buffer ++ shell_exited (record { indicator = s.indicator }) ∷ [])
unfolding remove_shell finish_shell_removal
exit_shell maps ss cs pid s t room nz e =
    let (p, l, (ss', t', perm)) = removal-some t.shells pid refl nz room s e in
    rw (first_shell t ss true pid refl (some-ne-nil t pid s e), remove_shell, l)
      ((ss', record { shells = t'; children = t.children }, perm), refl)

pub not_a_shell :
    (maps : Maps) (ss : List Shell) (cs : List Child) (room : Bool) (pid : ℕ)
    → Tracks maps ss cs
    → pid ≢ 0
    → ss ≢ []
    → (find_pid shell_pid_of pid ss ≡ none) ⊎ (length ss ≡ shells_max_entries)
    → do_exit room pid maps ≡ remove_child pid maps
unfolding remove_shell finish_shell_removal
not_a_shell maps ss cs room pid t nz ne (inl e) = elim (room-cases t.shells) [
  | inl h ↦
      rw (first_shell t ss room pid refl ne, remove_shell, removal-none t.shells pid refl nz h e)
  | inr h ↦ rw (
    first_shell t ss room pid refl ne,
    remove_shell,
    finish_shell_removal,
    removal-full t.shells pid refl nz h,
  )
]
not_a_shell maps ss cs room pid t nz ne (inr h) = rw (
  first_shell t ss room pid refl ne,
  remove_shell,
  finish_shell_removal,
  removal-full t.shells pid refl nz h,
)

-- A process that is no shell ends, while some shell is tracked and `children` has a free entry. Then
-- exactly that process leaves the children, the shells stay, and no event is sent.
pub exit_child :
    (maps : Maps) (ss : List Shell) (cs : List Child) (room : Bool) (pid : ℕ)
    → Tracks maps ss cs
    → ss ≢ []
    → length cs < children_max_entries
    → pid ≢ 0
    → find_pid shell_pid_of pid ss ≡ none
    → let maps' = do_exit room pid maps in
      ((cs' : List Child) × Tracks maps' ss cs' × Perm (others child_pid_of pid cs) cs')
      × (maps'.ring_buffer ≡ maps.ring_buffer)
unfolding remove_child
exit_child maps ss cs room pid t ne free nz e =
    let (found, (cs', t', perm)) = finish_removal-IsTable t.children pid refl nz free in
    rw (not_a_shell maps ss cs room pid t nz ne (inl e))
      ((cs', record { shells = t.shells; children = t' }, perm), refl)

-- Where no shell is tracked the program returns at once.
pub exit_without_shells :
    (maps : Maps) (cs : List Child) (room : Bool) (pid : ℕ)
    → Tracks maps [] cs
    → do_exit room pid maps ≡ maps
exit_without_shells maps cs room pid t = first_free t refl room pid

-- Once `children` is full no end of a child frees its entry: the maps stay as they are, for every
-- process that is no shell.
pub exit_full :
    (maps : Maps) (ss : List Shell) (cs : List Child) (room : Bool) (pid : ℕ)
    → Tracks maps ss cs
    → length cs ≡ children_max_entries
    → pid ≢ 0
    → find_pid shell_pid_of pid ss ≡ none
    → do_exit room pid maps ≡ maps
unfolding remove_child finish_removal
exit_full maps [] cs room pid t full nz e = exit_without_shells maps cs room pid t
exit_full maps (s ∷ ss) cs room pid t full nz e = rw (
  not_a_shell maps (s ∷ ss) cs room pid t nz (λ n. cc) (inl e),
  removal-full t.children pid refl nz full,
  remove_child,
  finish_removal,
)
