-- ===== src/Daemon/Main.antt =====
-- `main` of daemon/src/nhi.c with `open_and_setup_db` of daemon/src/sqlite.c: the start of the
-- daemon, its loop over the ring buffer, and its end. libbpf is a parameter.
pub mod Laws
pub mod Delivery
use nhi.Prelude.{
  ℕ, zero, suc, ◌+◌, ◌-◌, ◌^◌, List, [], ◌∷◌, ◌++◌, Option, none, some, Bool, true, false, ◌==◌,
  if◌then◌else◌, codes, ◌>>=◌,
}
use nhi.Common.{Shell}
use nhi.Daemon.Sqlite.{Sqlite, Message, Connection}
use nhi.Daemon.Os.{Os}
use nhi.Daemon.Handlers.{Daemon, handle_event}

-- The two calls of SQLite that only the start makes: sqlite3_open, and sqlite3_wal_autocheckpoint
-- for so many frames. Each says whether it succeeded (`none`) or what sqlite3_errmsg then gives.
pub record Opening (sq : Sqlite) : Type 0 where
  pub open_db : List ℕ → Option Message × sq.Db
  pub wal_autocheckpoint : sq.Db → ℕ → Option Message × sq.Db

-- The calls of libbpf: `none` where libbpf_get_error or the returned pointer tells a failure. A call
-- of `load` is true if it succeeded.
pub record Libbpf : Type 1 where
  pub Object : Type 0
  pub Program : Type 0
  pub RingBuffer : Type 0
  pub open_file : List ℕ → Option Object
  pub load : Object → Bool
  pub find_program_by_name : Object → List ℕ → Option Program
  -- true if the program is attached
  pub attach : Program → Bool
  pub find_map_fd_by_name : Object → List ℕ → ℕ
  -- for the map with that descriptor
  pub ring_buffer_new : ℕ → Option RingBuffer

-- -EINVAL, as the bits of an `int`
abbrev pub minus_einval : ℕ
minus_einval = 2 ^ 32 - 22

-- The database, or a null pointer, and the lines that are logged.
unfoldable pub open_and_setup_db : (sq : Sqlite) → Opening sq → Option sq.Db × List Message
open_and_setup_db sq opening =
    let (failed, db) = opening.open_db (codes "/var/nhi/db") in
    elim failed [
      | some message ↦ (none, message ∷ [])
      | none ↦
          let (failed', db') = opening.wal_autocheckpoint db 0 in
          elim failed' [ some message ↦ (none, message ∷ []) | none ↦ (some db', []) ]
    ]

abbrev pub program_names : List (List ℕ)
program_names =
    codes "kill_something_info"
    ∷ codes "fork_tracepoint"
    ∷ codes "do_exit"
    ∷ codes "ksys_write"
    ∷ codes "__fdget_pos"
    ∷ []

-- What `main` has when it enters its loop.
pub record Started (sq : Sqlite) (lib : Libbpf) : Type 0 where
  pub db : sq.Db
  pub bpf_object : lib.Object
  pub shells_fd : ℕ
  pub ring_buffer : lib.RingBuffer

module _ (lib : Libbpf) where
  -- The loop over the programs: the programs that are attached, in order, and the message of the
  -- return, if it returns.
  unfoldable pub attach_loop : lib.Object → List (List ℕ) → List (List ℕ) × Option Message
  attach_loop object [] = ([], none)
  attach_loop object (name ∷ names) =
      let (attached, failed) = attach_loop object names in
      elim (lib.find_program_by_name object name) [
        | none ↦ ([], some (codes "Failed to find bpf_program"))
        | some program ↦ elim (lib.attach program) [
          | false ↦ ([], some (codes "Failed to attach bpf_program"))
          | true ↦ (name ∷ attached, failed)
        ]
      ]

module _ (sq : Sqlite) (lib : Libbpf) where
  -- From the descriptors on.
  unfoldable pub open_ring_buffer : sq.Db → lib.Object → Option (Started sq lib) × List Message
  open_ring_buffer db object =
      let shells_fd = lib.find_map_fd_by_name object (codes "shells") in
      if shells_fd == minus_einval
      then (none, codes "Failed to find shells map" ∷ [])
      else elim (lib.ring_buffer_new (lib.find_map_fd_by_name object (codes "ring_buffer"))) [
        | none ↦ (none, codes "Failed to create ring_buffer" ∷ [])
        | some ring_buffer ↦ (
          some (record {
            db = db;
            bpf_object = object;
            shells_fd = shells_fd;
            ring_buffer = ring_buffer;
          }),
          [],
        )
      ]

  -- From the object file on.
  unfoldable pub load_programs : sq.Db → Option (Started sq lib) × List Message
  load_programs db = elim (lib.open_file (codes "/etc/nhi/nhi.bpf.o")) [
    | none ↦ (none, codes "Failed to open bpf_object" ∷ [])
    | some object ↦ elim (lib.load object) [
      | false ↦ (none, codes "Failed to load bpf_object" ∷ [])
      | true ↦ elim (attach_loop lib object program_names).1 [
        | some message ↦ (none, message ∷ [])
        | none ↦ open_ring_buffer db object
      ]
    ]
  ]

  -- From the test of `db` on.
  unfoldable pub start_with : Option sq.Db × List Message → Option (Started sq lib) × List Message
  start_with (none, messages) = (none, messages)
  start_with (some db, messages) = load_programs db

  -- `main` up to its loop: what it starts with, or a return, and the lines that are logged.
  unfoldable pub start : Opening sq → Option (Started sq lib) × List Message
  unfolding start_with
  start opening = start_with (open_and_setup_db sq opening)

module _ (sq : Sqlite) (os : Os) where
  -- One call of ring_buffer__poll: `handle_event` for each record, in order.
  unfoldable pub poll : List (List ℕ) → Daemon sq → Option (Daemon sq)
  unfolding handle_event
  poll [] d = some d
  poll (bytes ∷ records) d = handle_event sq os bytes d >>= λ d'. poll records d'

-- What `destroy`, the destructor of the program, closes.
pub data Closing : Type 0 where
  bpf_object_close sqlite3_close : Closing

abbrev pub destroy : List Closing
destroy = bpf_object_close ∷ sqlite3_close ∷ []

-- A round of the endless loop: a poll with the records that it delivers, or SIGINT.
pub data Round : Type 0 where
  polled : List (List ℕ) → Round
  interrupted : Round

-- The process: in its loop, ended by exit with a status and what is closed then, or ended by a
-- fault.
pub data Process (sq : Sqlite) : Type 0 where
  running : Daemon sq → Process sq
  exited : ℕ → List Closing → Process sq
  crashed : Process sq

-- exit(0), whatever the signal
abbrev pub sigint_hack : (sq : Sqlite) → ℕ → Process sq
sigint_hack sq signum = exited 0 destroy

module _ (sq : Sqlite) (os : Os) where
  -- The loop, over its first rounds.
  unfoldable pub main_loop : List Round → Daemon sq → Process sq
  unfolding poll
  main_loop [] d = running d
  main_loop (polled records ∷ rounds) d = elim (poll sq os records d) [
    | none ↦ crashed
    | some d' ↦ main_loop rounds d'
  ]
  main_loop (interrupted ∷ rounds) d = sigint_hack sq 2
