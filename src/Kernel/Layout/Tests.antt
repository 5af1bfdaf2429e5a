-- ===== src/Kernel/Layout/Tests.antt =====
-- The sizes that comments of the program give, the stack of a program, and a member.
use nhi.Prelude.{◌+◌, ◌≤◌, ◌≡◌, refl, ◌∷◌, [], some, arith}
use nhi.Kernel.Layout.{size_of, offset_of}
use nhi.Kernel.Layout.Integers.{u32}
use nhi.Kernel.Layout.Files.{struct_file, struct_dentry, struct_inode}
use nhi.Kernel.Layout.Events.{struct_trace_event_raw_sched_process_fork}
use nhi.Kernel.Layout.Signals.{struct_kernel_siginfo}
use nhi.Kernel.Layout.Shared.{
  struct_kill_event, struct_exit_shell_indicator_event, struct_shell, struct_child,
}

kill_event_test : size_of struct_kill_event ≡ 16
unfolding size_of
kill_event_test = refl

exit_event_test : size_of struct_exit_shell_indicator_event ≡ 8
unfolding size_of
exit_event_test = refl

shell_test : size_of struct_shell ≡ 48
unfolding size_of
shell_test = refl

child_test : size_of struct_child ≡ 8
unfolding size_of
child_test = refl

inode_test : size_of struct_inode ≡ 632
unfolding size_of
inode_test = refl

fork_test : size_of struct_trace_event_raw_sched_process_fork ≡ 48
unfolding size_of
fork_test = refl

-- As the kernel says of it.
siginfo_test : size_of struct_kernel_siginfo ≡ 48
unfolding size_of
siginfo_test = refl

-- A file, an entry and a name stand on the stack of 512 bytes; an inode would not fit.
stack_test : size_of struct_file + size_of struct_dentry + 8 ≤ 512
unfolding size_of
stack_test = omega arith

len_test : offset_of ("d_name" ∷ "len" ∷ []) struct_dentry ≡ some (36, u32)
unfolding offset_of
len_test = refl
