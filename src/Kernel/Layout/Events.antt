-- ===== src/Kernel/Layout/Events.antt =====
-- The structures of the tracepoint for a fork of daemon/src/vmlinux.h.
use nhi.Kernel.Layout.{CType, array, struct, member, end, ◌⨾◌}
use nhi.Kernel.Layout.Integers.{char, int, pid_t, unsigned_char, unsigned_short}

abbrev pub struct_trace_entry : CType
struct_trace_entry = struct (
    member "type" unsigned_short
    ⨾ member "flags" unsigned_char
    ⨾ member "preempt_count" unsigned_char
    ⨾ member "pid" int
    ⨾ end)

abbrev pub struct_trace_event_raw_sched_process_fork : CType
struct_trace_event_raw_sched_process_fork = struct (
    member "ent" struct_trace_entry
    ⨾ member "parent_comm" (array 16 char)
    ⨾ member "parent_pid" pid_t
    ⨾ member "child_comm" (array 16 char)
    ⨾ member "child_pid" pid_t
    ⨾ member "__data" (array 0 char)
    ⨾ end)
