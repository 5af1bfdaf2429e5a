-- ===== src/Kernel/Tracks.antt =====
-- The state of the kernel programs as two tables, and what they say of a process.
use nhi.Prelude.{ℕ, ◌≡◌, List, Option, none, some, arith}
use nhi.Common.{
  Shell, Child, zero_shell, zero_child, shell_pid_of, child_pid_of, shells_max_entries,
  children_max_entries,
}
use nhi.Kernel.Maps.{Maps}
use nhi.Kernel.Table.{find_pid, IsTable}

-- The maps hold exactly these shells and these children.
pub record Tracks (maps : Maps) (ss : List Shell) (cs : List Child) : Type 0 where
  pub shells : IsTable shell_pid_of zero_shell shells_max_entries maps.shells ss
  pub children : IsTable child_pid_of zero_child children_max_entries maps.children cs

-- The indicator of a shell; 0 for a process that is none.
abbrev pub indicator_of : List Shell → ℕ → ℕ
indicator_of ss pid = elim (find_pid shell_pid_of pid ss) [ none ↦ 0 | some s ↦ s.indicator ]

-- The shell that a process was started from; 0 for a process that is not tracked.
abbrev pub shell_of : List Child → ℕ → ℕ
shell_of cs pid = elim (find_pid child_pid_of pid cs) [ none ↦ 0 | some c ↦ c.shell_pid ]

-- To which shell a new child of the process belongs: to the process, if it is a shell.
unfoldable pub owner : List Shell → List Child → ℕ → Option ℕ
owner ss cs pid = elim (find_pid shell_pid_of pid ss) [
  | some s ↦ some pid
  | none ↦ elim (find_pid child_pid_of pid cs) [ none ↦ none | some c ↦ some c.shell_pid ]
]

pub owner-shell :
    (ss : List Shell) (cs : List Child) (pid : ℕ) {s : Shell}
    → find_pid shell_pid_of pid ss ≡ some s
    → owner ss cs pid ≡ some pid
unfolding owner
owner-shell ss cs pid e = ground arith

pub owner-child :
    (ss : List Shell) (cs : List Child) (pid : ℕ) {c : Child}
    → find_pid shell_pid_of pid ss ≡ none
    → find_pid child_pid_of pid cs ≡ some c
    → owner ss cs pid ≡ some c.shell_pid
unfolding owner
owner-child ss cs pid e e' = ground arith

pub owner-untracked :
    (ss : List Shell) (cs : List Child) (pid : ℕ)
    → find_pid shell_pid_of pid ss ≡ none
    → find_pid child_pid_of pid cs ≡ none
    → owner ss cs pid ≡ none
unfolding owner
owner-untracked ss cs pid e e' = ground arith
