-- ===== src/Lib.antt =====
-- nhi records what happens in interactive shells: programs in the kernel (eBPF) follow the shells,
-- their children and what they write to their terminals, and a daemon keeps it in a SQLite database,
-- which a command line tool reads. This library models the kernel programs and the daemon, which are
-- written in C, and of the tool, in Go, the commands fetch, remove and rename.
--
-- Parts, and where they are:
-- - daemon/src/common.h: Common (constants, structures, the events of the ring buffer).
-- - daemon/src/nhi.bpf.c: Kernel. Maps holds the state, Scan the loops over the array maps
--   `shells` and `children`, and Kill, Fork, Exit and Write the programs kill_something_info,
--   fork_tracepoint, do_exit, ksys_write and __fdget_pos. Kernel/Table says what such a map is as a
--   table of entries with distinct pids, Kernel/Tracks what the two tables say of a process; the
--   laws of the programs stand below each of them. Kernel/Write has the comparison of terminals
--   (Terminal), the loop over escape sequences (Escape) and the reads of the kernel's structures
--   (File). Kernel/Steps has all that happens to the maps as a step relation: a run of each program,
--   and the entry that the daemon adds for a shell.
-- - daemon/src/vmlinux.h: Kernel/Layout, the rules by which C lays out structures on x86_64, with the
--   structures that the programs name and all that these consist of (Integers, Locks, Files, Events,
--   Signals), and those of daemon/src/common.h (Shared). Kernel/Maps/Definitions has the definitions
--   of the maps.
-- - the ring buffer: Wire has the bytes of the events and the casts of handle_event in
--   daemon/src/nhi.c.
-- - daemon/src/nhi.c: Daemon/Environ (get_shell_environ_address, get_shell_environ; Found has the
--   memory of a shell as get_shell_environ reads it), Daemon/Handlers (handle_event and the
--   handlers, one function each) and Daemon/Main (main up to its loop, the loop, sigint_hack and
--   destroy).
-- - daemon/src/sqlite.c: Daemon/Statements (the texts of the queries) and Daemon/Writers (one
--   function each, under its name), on the calls of SQLite in Daemon/Sqlite; open_and_setup_db is in
--   Daemon/Main. Daemon/Writers/Calls takes the functions that daemon/src/sqlite.h declares together.
-- - daemon/src/utils.c: Daemon/Clock (get_indicator) and Daemon/Log (the line of write_log).
-- - pkg/utils/gets.go: Cli/Range (the functions on ranges), on the functions of Go's library in
--   Cli/Text.
-- - pkg/fetch/fetch.go: Cli/Where (getWhere), Cli/Printing (printRows) and Cli/Fetch (Fetch).
--   Cli/Printing/Recorded says what the daemon records as an output, and Cli/Printing/Children which
--   sessions an output names.
-- - pkg/remove/remove.go, pkg/rename/rename.go and GetSessionIndicator of pkg/utils/gets.go:
--   Cli/Sessions, with the statements that are executed as a result.
-- A program of the kernel changes the maps and submits events; the daemon takes each event and
-- changes the database and, for a new shell, the map of shells. System puts the two together,
-- System/Shared lets them work on the same map of shells in every order, and System/Printed follows
-- the writes of a session up to what the tool prints of them.
--
-- write_log reads the clock for each line, which counts as a read wherever a line is logged.
--
-- State is passed on by the functions: the maps (Kernel/Maps), a connection with the log and the
-- clock (Daemon/Sqlite), and the globals of the daemon (Daemon/Handlers). A failure that ends the
-- daemon, or a behaviour that C leaves undefined, is `none`. So it is for a statement that sprintf
-- prints past the end of its array on the stack: create_table and add_start_time do so for the
-- indicators of today (Daemon/Statements/Buffers), and run on only if the compiler has left enough
-- bytes unused behind the array, which is the parameter `slack` of Daemon/Os. Integers are native numbers: pids and
-- longs as their bit patterns, chars as bytes, with the wrap-around written out where a value is
-- computed.
--
-- Loops: those of the kernel programs have a bound in the source (256, 1024, 511, 8), which is the
-- number of rounds they are given here. `decimal` has fuel for 20 digits, one more than a `long`
-- has.
--
-- `fetch` has fuel for the sessions within each other; as a session names only later ones, the
-- number of these is enough.
--
-- Parameters: SQLite (Daemon/Sqlite), with what its documentation says of the statements as the
-- hypothesis Documented of Daemon/Store, where the statements are written out as SQL once more, apart
-- from the texts that the daemon builds; Daemon/Tests fulfils it by a small database; the system
-- calls, among them popen with the local environment that __environ points to then, pipes, files, strtol and the clock (Daemon/Os); libbpf (Daemon/Main); and the memory of the
-- kernel and whether the ring buffer has room (Kernel/Write); and for the tool the answers to its
-- queries, regular expressions and the calendar (Cli/Fetch). Array maps are lists of entries.
--
-- The steps of Kernel/Steps ask that a new process has a pid which no entry of `children` has, and a
-- new shell one that no entry of `shells` has. The programs do not see to that themselves: an entry
-- that is left behind, and a pid that the kernel gives out again, would break it.
--
-- Not modelled: the file that write_log writes to, a signal in the middle of a poll, the paths of a
-- build with TEST, races between programs on several processors, the rest of daemon/src/vmlinux.h,
-- which the program does not use, the commands log and log-session of the tool with its pager and
-- its command line, the shell hooks, and the libraries under vendor.
pub mod Prelude
pub mod Common
pub mod Kernel
pub mod Wire
pub mod Daemon
pub mod System
pub mod Cli
