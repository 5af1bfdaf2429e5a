-- ===== src/Kernel/Tests.antt =====
-- The kernel programs of daemon/src/nhi.bpf.c at concrete tables: a bash with one child, no shell at
-- all, and a full table of children.
use nhi.Prelude.{
  ℕ, zero, suc, ◌<◌, ◌≡◌, ◌≢◌, refl, ap, true, List, [], ◌∷◌, ◌++◌, arith, length, replicate, All,
  Nodup, map, Perm, codes,
}
use mathlib.Core.List.{Nodup-nil, Nodup-cons}
use nhi.Common.{
  Shell, Child, killed, shell_exited, zero_shell, zero_child, shell_pid_of, child_pid_of,
  shells_max_entries, children_max_entries, nhid_hash, sigusr1,
}
use nhi.Kernel.Maps.{Maps, fresh_maps}
use nhi.Kernel.Scan.Laws.{IsOther}
use nhi.Kernel.Table.{find_pid, others, IsTable}
use nhi.Kernel.Table.Lookup.{All-not-mem}
use nhi.Kernel.Tracks.{Tracks, indicator_of, shell_of, owner}
use nhi.Kernel.Kill.{kill_something_info}
use nhi.Kernel.Kill.Laws.{kill_announces}
use nhi.Kernel.Fork.{fork_tracepoint}
use nhi.Kernel.Fork.Laws.{Recorded, fork_records, fork_full}
use nhi.Kernel.Exit.{do_exit}
use nhi.Kernel.Exit.Laws.{exit_shell, exit_child, exit_full}

abbrev pub bash : Shell
bash = record {
  shell_pid = 300;
  indicator = 16500000000;
  omit_write = 0;
  environ_address = 4096;
  terminal = codes "0" ++ 10 ∷ 0 ∷ 0 ∷ 0 ∷ 0 ∷ 0 ∷ 0 ∷ [];
  terminal_len = 1;
}

abbrev pub sleep : Child
sleep = record { child_pid = 301; shell_pid = 300 }

-- `n` children, with the pids from `n` down to 1.
abbrev crowd : ℕ → List Child
crowd zero = []
crowd (suc n) = record { child_pid = suc n; shell_pid = 300 } ∷ crowd n

length-crowd : (n : ℕ) → length (crowd n) ≡ n
length-crowd zero = refl
length-crowd (suc n) = ap suc (length-crowd n)

crowd-IsUsed : (n : ℕ) → All (λ (c : Child). c.child_pid ≢ 0) (crowd n)
crowd-IsUsed zero = tt
crowd-IsUsed (suc n) = ((λ e. omega arith), crowd-IsUsed n)

crowd-IsOther : (n pid : ℕ) → n < pid → All (IsOther child_pid_of pid) (crowd n)
crowd-IsOther zero pid h = tt
crowd-IsOther (suc n) pid h = ((λ e. omega arith), crowd-IsOther n pid (omega arith))

crowd-Nodup : (n : ℕ) → Nodup (map child_pid_of (crowd n))
crowd-Nodup zero = Nodup-nil
crowd-Nodup (suc n) = Nodup-cons.1 (
  All-not-mem child_pid_of (suc n) (crowd n) (crowd-IsOther n (suc n) (omega arith)),
  crowd-Nodup n,
)

abbrev maps_with : List Shell → ℕ → List Child → ℕ → Maps
maps_with ss spare cs spare' = record fresh_maps {
  shells = ss ++ replicate spare zero_shell;
  children = cs ++ replicate spare' zero_child;
  fdget_pos_pos = 4098 ∷ [];
}

pub no_shells : IsTable shell_pid_of zero_shell shells_max_entries (replicate 256 zero_shell) []
no_shells = record { spare = 256; layout = refl; total = refl; used = tt; distinct = Nodup-nil }

pub one_shell :
    IsTable shell_pid_of zero_shell shells_max_entries (bash ∷ replicate 255 zero_shell) (bash ∷ [])
one_shell = record {
  spare = 255;
  layout = refl;
  total = refl;
  used = ((λ e. omega arith), tt);
  distinct = Nodup-cons.1 (All-not-mem shell_pid_of 300 [] tt, Nodup-nil);
}

one_child :
    IsTable child_pid_of zero_child children_max_entries
      (sleep ∷ replicate 1023 zero_child)
      (sleep ∷ [])
one_child = record {
  spare = 1023;
  layout = refl;
  total = refl;
  used = ((λ e. omega arith), tt);
  distinct = Nodup-cons.1 (All-not-mem child_pid_of 301 [] tt, Nodup-nil);
}

all_children : IsTable child_pid_of zero_child children_max_entries (crowd 1024 ++ []) (crowd 1024)
all_children = record {
  spare = 0;
  layout = refl;
  total = omega (arith, length-crowd 1024);
  used = crowd-IsUsed 1024;
  distinct = crowd-Nodup 1024;
}

abbrev pub session : Maps
session = maps_with (bash ∷ []) 255 (sleep ∷ []) 1023

pub session-Tracks : Tracks session (bash ∷ []) (sleep ∷ [])
session-Tracks = record { shells = one_shell; children = one_child }

abbrev crowded : Maps
crowded = maps_with (bash ∷ []) 255 (crowd 1024) 0

crowded-Tracks : Tracks crowded (bash ∷ []) (crowd 1024)
crowded-Tracks = record { shells = one_shell; children = all_children }

nhid_hash_test : nhid_hash ≡ 120120000
nhid_hash_test = refl

-- A process that was started from the bash becomes a shell.
kill_announces_example :
    let maps' = kill_something_info true sigusr1 nhid_hash 301 session in
    ((cs' : List Child) × Tracks maps' (bash ∷ []) cs'
      × Perm (others child_pid_of 301 (sleep ∷ [])) cs')
    × (maps'.ring_buffer
        ≡ []
          ++ killed (record {
            shell_pid = 301;
            sig = sigusr1;
            parent_shell_indicator = indicator_of (bash ∷ []) (shell_of (sleep ∷ []) 301);
          })
            ∷ [])
kill_announces_example =
    kill_announces session (bash ∷ []) (sleep ∷ []) sigusr1 301 session-Tracks (omega arith)
      (λ e. omega arith) refl

-- The child forks.
fork_records_example :
    Recorded session
      (fork_tracepoint true 301 302 session)
      (bash ∷ [])
      (sleep ∷ [])
      302
      (owner (bash ∷ []) (sleep ∷ []) 301)
fork_records_example =
    fork_records session (bash ∷ []) (sleep ∷ []) 301 302 session-Tracks (omega arith)
      (λ e. omega arith) (unfold find_pid in refl)

fork_full_example : fork_tracepoint true 300 2000 crowded ≡ crowded
fork_full_example =
    fork_full crowded (bash ∷ []) (crowd 1024) true 300 2000 crowded-Tracks (length-crowd 1024)

exit_shell_example :
    let maps' = do_exit true 300 session in
    ((ss' : List Shell) × Tracks maps' ss' (sleep ∷ [])
      × Perm (others shell_pid_of 300 (bash ∷ [])) ss')
    × (maps'.ring_buffer ≡ [] ++ shell_exited (record { indicator = 16500000000 }) ∷ [])
exit_shell_example =
    exit_shell session (bash ∷ []) (sleep ∷ []) 300 bash session-Tracks (omega arith)
      (λ e. omega arith) (unfold find_pid in refl)

exit_child_example :
    let maps' = do_exit true 301 session in
    ((cs' : List Child) × Tracks maps' (bash ∷ []) cs'
      × Perm (others child_pid_of 301 (sleep ∷ [])) cs')
    × (maps'.ring_buffer ≡ [])
exit_child_example =
    exit_child session (bash ∷ []) (sleep ∷ []) true 301 session-Tracks (λ e. cc) (omega arith)
      (λ e. omega arith) (unfold find_pid in refl)

exit_full_example : do_exit true 17 crowded ≡ crowded
exit_full_example =
    exit_full crowded (bash ∷ []) (crowd 1024) true 17 crowded-Tracks (length-crowd 1024)
      (λ e. omega arith) (unfold find_pid in refl)
