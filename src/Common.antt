-- ===== src/Common.antt =====
-- daemon/src/common.h: the constants and the structures that the kernel programs and the daemon
-- share. A `pid_t`, an `int` and a `long` are the bit patterns of their values, and a `char` is a
-- byte; the programs compare them for equality only, or say where they widen one.
use nhi.Prelude.{ℕ, ◌+◌, ◌*◌, ◌-◌, ◌^◌, List, replicate, ltb, if◌then◌else◌}

abbrev pub shells_max_entries : ℕ
shells_max_entries = 256

abbrev pub children_max_entries : ℕ
children_max_entries = 1024

abbrev pub ring_buffer_max_entries : ℕ
ring_buffer_max_entries = 1024 * 1024

abbrev pub ksys_write_event_size : ℕ
ksys_write_event_size = 32 * 1024

-- The product of the codes of n, h, i and d.
abbrev pub nhid_hash : ℕ
nhid_hash = b'n' * b'h' * b'i' * b'd'

abbrev pub sigusr1 : ℕ
sigusr1 = 10

abbrev pub sigusr2 : ℕ
sigusr2 = 12

abbrev pub sigrtmin : ℕ
sigrtmin = 34

abbrev pub environ_amount_of_variables : ℕ
environ_amount_of_variables = 8 * 1024

abbrev pub environ_element_size : ℕ
environ_element_size = 512

abbrev pub local_environ_amount_of_variables : ℕ
local_environ_amount_of_variables = 4

-- sizeof(long) and sizeof(pid_t)
abbrev pub sizeof_long : ℕ
sizeof_long = 8

abbrev pub sizeof_pid : ℕ
sizeof_pid = 4

pub record KillEvent : Type 0 where
  pub shell_pid : ℕ
  pub sig : ℕ
  pub parent_shell_indicator : ℕ

pub record ExitShellIndicatorEvent : Type 0 where
  pub indicator : ℕ

-- `output` begins with the specificity byte, and the size of the event says where it ends.
pub record WriteEvent : Type 0 where
  pub indicator : ℕ
  pub output : List ℕ

pub record Shell : Type 0 where
  pub shell_pid : ℕ
  pub indicator : ℕ
  pub omit_write : ℕ
  pub environ_address : ℕ
  pub terminal : List ℕ
  pub terminal_len : ℕ

pub record Child : Type 0 where
  pub child_pid : ℕ
  pub shell_pid : ℕ

abbrev pub shell_pid_of : Shell → ℕ
shell_pid_of s = s.shell_pid

abbrev pub child_pid_of : Child → ℕ
child_pid_of c = c.child_pid

-- `{0}`, which an entry of an array map holds at first
abbrev pub zero_shell : Shell
zero_shell = record {
  shell_pid = 0;
  indicator = 0;
  omit_write = 0;
  environ_address = 0;
  terminal = replicate 8 0;
  terminal_len = 0;
}

abbrev pub zero_child : Child
zero_child = record { child_pid = 0; shell_pid = 0 }

-- What a program hands to the ring buffer: the structure, or a bare `pid_t`.
pub data Event : Type 0 where
  killed : KillEvent → Event
  child_created : ℕ → Event
  shell_exited : ExitShellIndicatorEvent → Event
  written : WriteEvent → Event

-- A `char` widened to `int` and read as an `unsigned int`.
abbrev pub char_to_u32 : ℕ → ℕ
char_to_u32 c = if ltb c 128 then c else c + (2 ^ 32 - 256)
