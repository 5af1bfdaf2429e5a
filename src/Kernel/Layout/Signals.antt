-- ===== src/Kernel/Layout/Signals.antt =====
-- The description of a signal, which kill_something_info of daemon/src/nhi.bpf.c gets beside the signal
-- and the pid, of daemon/src/vmlinux.h.
use nhi.Kernel.Layout.{CType, scalar, two, array, struct, union, member, anonymous, end, ◌⨾◌}
use nhi.Kernel.Layout.Integers.{
  char, int, long, unsigned_int, unsigned_long, pointer, uapi_u32, kernel_pid_t, kernel_uid32_t,
}

abbrev pub kernel_long_t : CType
kernel_long_t = long

abbrev pub kernel_clock_t : CType
kernel_clock_t = kernel_long_t

abbrev pub kernel_timer_t : CType
kernel_timer_t = int

abbrev pub union_sigval : CType
union_sigval = union (member "sival_int" int ⨾ member "sival_ptr" pointer ⨾ end)

abbrev pub sigval_t : CType
sigval_t = union_sigval

abbrev pub union_sifields : CType
union_sifields = union (
    member "_kill" (struct (member "_pid" kernel_pid_t ⨾ member "_uid" kernel_uid32_t ⨾ end))
    ⨾ member "_timer" (
        struct (
          member "_tid" kernel_timer_t
          ⨾ member "_overrun" int
          ⨾ member "_sigval" sigval_t
          ⨾ member "_sys_private" int
          ⨾ end))
    ⨾ member "_rt" (
        struct (
          member "_pid" kernel_pid_t
          ⨾ member "_uid" kernel_uid32_t
          ⨾ member "_sigval" sigval_t
          ⨾ end))
    ⨾ member "_sigchld" (
        struct (
          member "_pid" kernel_pid_t
          ⨾ member "_uid" kernel_uid32_t
          ⨾ member "_status" int
          ⨾ member "_utime" kernel_clock_t
          ⨾ member "_stime" kernel_clock_t
          ⨾ end))
    ⨾ member "_sigfault" (
        struct (
          member "_addr" pointer
          ⨾ anonymous (
              union (
                member "_trapno" int
                ⨾ member "_addr_lsb" (scalar two)
                ⨾ member "_addr_bnd" (
                    struct (
                      member "_dummy_bnd" (array 8 char)
                      ⨾ member "_lower" pointer
                      ⨾ member "_upper" pointer
                      ⨾ end))
                ⨾ member "_addr_pkey"
                    (struct (member "_dummy_pkey" (array 8 char) ⨾ member "_pkey" uapi_u32 ⨾ end))
                ⨾ member "_perf" (
                    struct (
                      member "_data" unsigned_long
                      ⨾ member "_type" uapi_u32
                      ⨾ member "_flags" uapi_u32
                      ⨾ end))
                ⨾ end))
          ⨾ end))
    ⨾ member "_sigpoll" (struct (member "_band" long ⨾ member "_fd" int ⨾ end))
    ⨾ member "_sigsys" (
        struct
          (member "_call_addr" pointer ⨾ member "_syscall" int ⨾ member "_arch" unsigned_int ⨾ end))
    ⨾ end)

abbrev pub struct_kernel_siginfo : CType
struct_kernel_siginfo = struct (
    anonymous (
      struct (
        member "si_signo" int
        ⨾ member "si_errno" int
        ⨾ member "si_code" int
        ⨾ member "_sifields" union_sifields
        ⨾ end))
    ⨾ end)
