-- ===== src/Kernel/Kill/Laws.antt =====
-- What the announcement of a shell does to the maps and to the ring buffer.
use mathlib.Core.Option
use nhi.Prelude.{
  ℕ, ◌<◌, ◌≡◌, ◌≢◌, ◌||◌, refl, true, List, [], ◌∷◌, ◌++◌, none, arith, length, inl, inr,
  Option-cases, Perm, ◌==◌,
}
use nhi.Common.{
  Shell, Child, killed, zero_shell, shell_pid_of, child_pid_of, shells_max_entries,
  children_max_entries, nhid_hash, sigusr1, sigusr2,
}
use nhi.Kernel.Maps.{Maps}
use nhi.Kernel.Scan.{Removal, removal_loop}
use nhi.Kernel.Table.{find_pid, others, IsTable}
use nhi.Kernel.Table.Lookup.{search-some, search-none}
use nhi.Kernel.Table.Removal.{finish_removal-IsTable}
use nhi.Kernel.Tracks.{Tracks, indicator_of, shell_of}
use nhi.Kernel.Kill.{find_parent_indicator, parent_of, kill_something_info}

-- The loop finds the indicator that the table of shells gives the process, also in a full table.
pub find_parent_indicator_lem :
    {shells ss : List Shell}
    → IsTable shell_pid_of zero_shell shells_max_entries shells ss
    → (pid : ℕ) → find_parent_indicator pid shells ≡ indicator_of ss pid
unfolding find_parent_indicator
find_parent_indicator_lem {shells} {ss} t pid = elim (Option-cases (find_pid shell_pid_of pid ss)) [
  | inl e ↦ elim (search-none t pid refl e) [
    | inl (p, h) ↦ ground arith
    | inr (p, h) ↦ ground arith
  ]
  | inr (x, e) ↦ let (i, p, h, g) = search-some t pid x e in ground arith
]

parent_of_found :
    (r : Removal Child) (cs : List Child) (pid : ℕ)
    → Option.map (λ (p : ℕ × Child). p.1) r.found ≡ find_pid child_pid_of pid cs
    → parent_of r ≡ shell_of cs pid
parent_of_found r cs pid e = ground arith

-- A process announces itself as a shell (SIGUSR1 or SIGUSR2 to the daemon's pid), while `children`
-- has a free entry and the ring buffer has room. Then it is no child any more, all other children stay, no shell changes, and
-- one event tells its pid, the signal, and the indicator of the shell that it was started from (0
-- if it was started from none).
pub kill_announces :
    (maps : Maps) (ss : List Shell) (cs : List Child) (sig shell_pid : ℕ)
    → Tracks maps ss cs
    → length cs < children_max_entries
    → shell_pid ≢ 0
    → (sig == sigusr1 || sig == sigusr2) ≡ true
    → let maps' = kill_something_info true sig nhid_hash shell_pid maps in
      ((cs' : List Child) × Tracks maps' ss cs' × Perm (others child_pid_of shell_pid cs) cs')
      × (maps'.ring_buffer
          ≡ maps.ring_buffer
            ++ killed (record {
              shell_pid = shell_pid;
              sig = sig;
              parent_shell_indicator = indicator_of ss (shell_of cs shell_pid);
            })
              ∷ [])
unfolding kill_something_info
kill_announces maps ss cs sig shell_pid t room nz announces =
    let (found, (cs', t', perm)) = finish_removal-IsTable t.children shell_pid refl nz room in
    let removal = removal_loop child_pid_of shell_pid children_max_entries 0 none maps.children in
    rw announces (
      (cs', record { shells = t.shells; children = t' }, perm),
      rw (
        find_parent_indicator_lem t.shells (parent_of removal),
        parent_of_found removal cs shell_pid found,
      ),
    )
