-- ===== src/Kernel/Layout/Shared.antt =====
-- The layout of the structures of daemon/src/common.h.
use nhi.Kernel.Layout.{CType, struct, member, array, end, ◌⨾◌}
use nhi.Kernel.Layout.Integers.{char, int, long, pointer, pid_t}

abbrev pub struct_kill_event : CType
struct_kill_event =
    struct
      (member "shell_pid" pid_t ⨾ member "sig" int ⨾ member "parent_shell_indicator" long ⨾ end)

abbrev pub struct_exit_shell_indicator_event : CType
struct_exit_shell_indicator_event = struct (member "indicator" long ⨾ end)

-- `output` is a flexible array.
abbrev pub struct_write_event : CType
struct_write_event = struct (member "indicator" long ⨾ member "output" (array 0 char) ⨾ end)

abbrev pub struct_shell : CType
struct_shell = struct (
    member "shell_pid" pid_t
    ⨾ member "indicator" long
    ⨾ member "omit_write" char
    ⨾ member "environ_address" pointer
    ⨾ member "terminal" (array 8 char)
    ⨾ member "terminal_len" char
    ⨾ end)

abbrev pub struct_child : CType
struct_child = struct (member "child_pid" pid_t ⨾ member "shell_pid" pid_t ⨾ end)
