-- ===== src/Daemon/Handlers/Lookup.antt =====
-- What the daemon's loop over the shells finds.
use nhi.Prelude.{
  ℕ, zero, suc, ◌+◌, ◌≤◌, ◌≡◌, ap, List, [], ◌∷◌, Option, none, some, arith, length, At, ◌==◌, inl,
  inr, true, false, ◌∙◌, get_elem?, Bool-cases,
}
use nhi.Common.{Shell, shell_pid_of, zero_shell, shells_max_entries}
use nhi.Kernel.Table.{find_pid, IsTable}
use nhi.Kernel.Table.Lookup.{At-table}
use nhi.Daemon.Handlers.{find_shell_loop}

module _ (n i pid : ℕ) (m : List Shell) (x : Shell) (at : get_elem? m i ≡ some x) where
  loop-miss :
      (x.shell_pid == pid) ≡ false
      → find_shell_loop (suc n) i pid m ≡ find_shell_loop n (i + 1) pid m
  unfolding find_shell_loop
  loop-miss miss = ground (arith, at, miss)

  loop-hit :
      (x.shell_pid == pid) ≡ true
      → find_shell_loop (suc n) i pid m ≡ (x.indicator, x.environ_address)
  unfolding find_shell_loop
  loop-hit hit = ground (arith, at, hit)

abbrev found : Shell → ℕ × ℕ
found s = (s.indicator, s.environ_address)

found-some : {x s : Shell} → some x ≡ some s → found x ≡ found s
found-some {x} e = ap (λ (o : Option Shell). found (elim o [ none ↦ x | some y ↦ y ])) e

find_shell_loop-some :
    (ss m : List Shell) (i n pid : ℕ) (s : Shell)
    → At m i ss
    → length ss ≤ n
    → find_pid shell_pid_of pid ss ≡ some s
    → find_shell_loop n i pid m ≡ (s.indicator, s.environ_address)
unfolding find_pid
find_shell_loop-some [] m i n pid s at h e = cc
find_shell_loop-some (x ∷ ss) m i zero pid s at h e = absurd (omega arith)
find_shell_loop-some (x ∷ ss) m i (suc n) pid s at h e = elim (Bool-cases (x.shell_pid == pid)) [
  | inl hit ↦
      let same : some x ≡ some s = ground arith in loop-hit n i pid m x at.0 hit ∙ found-some same
  | inr miss ↦
      loop-miss n i pid m x at.0 miss
      ∙ find_shell_loop-some ss m (i + 1) n pid s at.1 (omega arith) (ground arith)
]

-- The shell that `find_pid` names in a table.
pub find_shell :
    {m ss : List Shell} (pid : ℕ) (s : Shell)
    → IsTable shell_pid_of zero_shell shells_max_entries m ss
    → find_pid shell_pid_of pid ss ≡ some s
    → find_shell_loop shells_max_entries 0 pid m ≡ (s.indicator, s.environ_address)
find_shell {m} {ss} pid s t e =
    find_shell_loop-some ss m 0 shells_max_entries pid s (At-table t) (omega (arith, t.total)) e
