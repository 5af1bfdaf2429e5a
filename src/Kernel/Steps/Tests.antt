-- ===== src/Kernel/Steps/Tests.antt =====
-- A bash is registered, forks, its child writes, and the bash is killed by SIGUSR1 from its hook and
-- ends.
use nhi.Prelude.{
  All, ℕ, zero, suc, ◌≡◌, ◌≢◌, refl, true, some, arith, replicate, get_elem?, codes, set,
}
use nhi.Common.{Child, zero_shell, zero_child, shell_pid_of, shells_max_entries, nhid_hash, sigusr1}
use nhi.Kernel.Maps.{Maps, fresh_maps}
use nhi.Kernel.Scan.{free_loop}
use nhi.Kernel.Tests.{bash}
use nhi.Kernel.Kill.{kill_something_info}
use nhi.Kernel.Fork.{fork_tracepoint}
use nhi.Kernel.Exit.{do_exit}
use nhi.Kernel.Write.{Kernel, WriteCall, ksys_write}
use nhi.Kernel.Steps.{Reach, Step, killed, forked, ended, wrote, registered, start, next}
use nhi.Kernel.Steps.Keeps.{IsTracked}
use nhi.Wire.Laws.{IsSent}
use nhi.Kernel.Write.{clamp_count}
use nhi.Kernel.Steps.Sent.{AllGiven, Reach-IsSent}
use nhi.Kernel.Steps.Reachable.{Reach-IsTracked}

pub zero_entries {ℓ} :
    {A : Type ℓ} (pid_of : A → ℕ) (empty : A) (pid n i : ℕ) (x : A)
    → pid_of empty ≡ 0
    → pid ≢ 0
    → get_elem? (replicate n empty) i ≡ some x
    → pid_of x ≢ pid
zero_entries pid_of empty pid zero i x z nz e = cc
zero_entries pid_of empty pid (suc n) zero x z nz e = λ same. nz (ground arith)
zero_entries pid_of empty pid (suc n) (suc i) x z nz e = zero_entries pid_of empty pid n i x z nz e

abbrev registered_bash : Maps
registered_bash = record fresh_maps { shells = set fresh_maps.shells 0 bash }

abbrev forked_bash : Maps
forked_bash = fork_tracepoint true 300 301 registered_bash

abbrev quiet : Kernel
quiet = record { memory = λ address. 0; terminal = replicate 8 0; uninitialised = 0; room = true }

abbrev hello : WriteCall
hello = record { current_pid = 301; fd = 1; buf = some (codes "hello"); count = 5 }

abbrev written_to : Maps
written_to = ksys_write quiet hello forked_bash

fresh_free : free_loop shell_pid_of shells_max_entries 0 fresh_maps.shells ≡ some 0
unfolding free_loop
fresh_free = refl

bash_Step : Step fresh_maps registered_bash
bash_Step =
    registered bash 0 (λ e. omega arith)
      (λ i s. zero_entries shell_pid_of zero_shell 300 256 i s refl (λ e. omega arith)) fresh_free

fork_Step : Step registered_bash forked_bash
fork_Step =
    forked true 300 301 (λ e. omega arith)
      λ i c.
        zero_entries (λ (c : Child). c.child_pid) zero_child 301 1024 i c refl (λ e. omega arith)

abbrev pub ended_maps : Maps
ended_maps = do_exit true 300 (kill_something_info true sigusr1 nhid_hash 300 written_to)

pub ended_Reach : Reach ended_maps
ended_Reach =
    next
      (next (next (next (next start bash_Step) fork_Step) (wrote quiet hello))
        (killed true sigusr1 nhid_hash 300 (λ e. omega arith)))
      (ended true 300 (λ e. omega arith))

pub ended_AllGiven : AllGiven ended_Reach
unfolding ended_Reach bash_Step fork_Step clamp_count
ended_AllGiven = (((((tt, omega arith), omega arith), omega arith), (omega arith, omega arith)), tt)

Reach-IsTracked_example : IsTracked ended_maps
Reach-IsTracked_example = Reach-IsTracked ended_Reach

Reach-IsSent_example : All IsSent ended_maps.ring_buffer
Reach-IsSent_example = Reach-IsSent ended_Reach ended_AllGiven
