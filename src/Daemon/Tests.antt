-- ===== src/Daemon/Tests.antt =====
-- A small database that reads the statements of daemon/src/sqlite.c by their text, for one session:
-- what SQLite is assumed to do can be done.
mod Handlers
pub mod Sessions
mod Nested
mod Main
mod Environ
use nhi.Prelude.{
  ℕ, zero, suc, ◌+◌, ◌*◌, ◌<◌, ◌≤◌, ◌≡◌, ◌≢◌, refl, ap, sym, subst, append-nil, append_assoc, Bool,
  true, false, ◌&&◌, List, [], ◌∷◌, ◌++◌, Option, none, some, arith, length, replicate, All, map,
  codes, ◌==◌, if◌then◌else◌, same_text,
}
use nhi.Common.{
  Shell, KillEvent, WriteEvent, ExitShellIndicatorEvent, Event, killed, written, child_created,
  shell_exited, zero_shell, shell_pid_of, shells_max_entries, sigrtmin,
}
use nhi.Kernel.Table.{find_pid, IsTable}
use nhi.Kernel.Tests.{bash, one_shell}
use nhi.Kernel.Write.Sizes.{IsWriteSize}
use nhi.Wire.{le_bytes, encode, event_of}
use nhi.Wire.Laws.{event_of-encode}
use nhi.Daemon.Clock.{Timeval, get_indicator, microseconds, get_indicator_order}
use nhi.Daemon.Sqlite.{Sqlite, Message, Binding, text, blob, int64}
use nhi.Daemon.Decimal.{decimal}
use nhi.Daemon.Statements.{
  sprintf_once, sprintf_twice, create_table_query, create_row_query, add_ps1_query,
  add_command_query, add_output_query, add_exit_status_query, add_pwd_query, add_start_time_query,
  add_finish_time_query, add_indicator_query, meta_create_row_query, meta_add_finish_time_query,
}
use nhi.Daemon.Statements.Buffers.{Fits, queries_fit, queries_overflow}
use nhi.Daemon.Store.{
  Row, Session, Store, Statement, empty_row, query_of, bindings_of, effect, IsAccepted, Documented,
  Binds, create_table, create_row, set_ps1, set_command, append_output, set_exit_status, set_pwd,
  set_start_time, set_finish_time, set_indicator, meta_create_row, meta_add_finish_time,
  start_unless, finish_session,
}

-- The session of the bash.
abbrev pub i : ℕ
i = 16500000000

-- The text is the one that SQL gives the statement.
abbrev says : ℕ → List ℕ → Statement → Bool
says i query st = same_text query (query_of i st)

-- The statement that a text and its bindings stand for.
abbrev pub parsed : ℕ → List ℕ → List Binding → Option Statement
parsed i query [] =
    if says i query create_table
    then some create_table
    else if says i query create_row
    then some create_row
    else none
parsed i query (text n v ∷ bs) =
    if says i query (set_ps1 v)
    then some (set_ps1 v)
    else if says i query (set_command v)
    then some (set_command v)
    else if says i query (set_exit_status v)
    then some (set_exit_status v)
    else if says i query (set_pwd v)
    then some (set_pwd v)
    else none
parsed i query (blob n v ∷ bs) =
    if says i query (append_output v) then some (append_output v) else none
parsed i query (int64 n v ∷ text m name ∷ int64 k t ∷ bs) =
    if v == i && says i query (meta_create_row name t) then some (meta_create_row name t) else none
parsed i query (int64 n v ∷ int64 m w ∷ bs) =
    if w == i && says i query (meta_add_finish_time v) then some (meta_add_finish_time v) else none
parsed i query (int64 n v ∷ bs) =
    if says i query (set_start_time v)
    then some (set_start_time v)
    else if says i query (set_finish_time v)
    then some (set_finish_time v)
    else if says i query (set_indicator v)
    then some (set_indicator v)
    else none

-- How a database reads a text with its bindings: a statement for some session.
abbrev pub Reading : Type 0
Reading = List ℕ → List Binding → Option (ℕ × Statement)

-- Only the session `i` is known.
abbrev read_one : Reading
read_one query bindings = elim (parsed i query bindings) [ none ↦ none | some st ↦ some (i, st) ]

abbrev with_binding : List ℕ × List Binding → Binding → Option Message × (List ℕ × List Binding)
with_binding (query, bindings) b = (none, (query, bindings ++ b ∷ []))

abbrev run_parsed : Store → Option (ℕ × Statement) → Option Message × Store
run_parsed s none = (some (codes "SQL logic error"), s)
run_parsed s (some (i, st)) = (none, effect i st s)

abbrev pub database : Reading → Sqlite
database read = record {
  Db = Store;
  Stmt = List ℕ × List Binding;
  prepare_v2 = λ db query. (none, (query, []));
  bind_text = λ stmt n v. with_binding stmt (text n v);
  bind_blob = λ stmt n v. with_binding stmt (blob n v);
  bind_int64 = λ stmt n v. with_binding stmt (int64 n v);
  step = λ db stmt. run_parsed db (read stmt.0 stmt.1);
  finalize = λ db stmt. db;
  wal_checkpoint_v2 = λ db. (none, db);
}

abbrev pub sqlite : Sqlite
sqlite = database read_one

read_one_lem : (st : Statement) → read_one (query_of i st) (bindings_of i st) ≡ some (i, st)
unfolding decimal
read_one_lem create_table = refl
read_one_lem create_row = refl
read_one_lem (set_ps1 v) = refl
read_one_lem (set_command v) = refl
read_one_lem (append_output v) = refl
read_one_lem (set_exit_status v) = refl
read_one_lem (set_pwd v) = refl
read_one_lem (set_start_time t) = refl
read_one_lem (set_finish_time t) = refl
read_one_lem (set_indicator k) = refl
read_one_lem (meta_create_row name t) = refl
read_one_lem (meta_add_finish_time t) = refl

bound_next :
    (read : Reading) (query : List ℕ) (bound : List Binding) (b : Binding) (bs : List Binding)
    → Binds (database read) (query, bound ++ b ∷ []) bs (query, (bound ++ b ∷ []) ++ bs)
    → Binds (database read) (query, bound ++ b ∷ []) bs (query, bound ++ b ∷ bs)
bound_next read query bound b bs h =
    subst (λ l. Binds (database read) (query, bound ++ b ∷ []) bs (query, l))
      (append_assoc bound (b ∷ []) bs) h

with_bindings :
    (read : Reading) (query : List ℕ) (bound bs : List Binding)
    → Binds (database read) (query, bound) bs (query, bound ++ bs)
unfolding Binds
with_bindings read query bound [] = ap (λ (l : List Binding). (query, l)) (sym (append-nil bound))
with_bindings read query bound (text n v ∷ bs) = (
  refl,
  bound_next read query bound (text n v) bs (with_bindings read query (bound ++ text n v ∷ []) bs),
)
with_bindings read query bound (blob n v ∷ bs) = (
  refl,
  bound_next read query bound (blob n v) bs (with_bindings read query (bound ++ blob n v ∷ []) bs),
)
with_bindings read query bound (int64 n v ∷ bs) = (
  refl,
  bound_next read query bound (int64 n v) bs
      (with_bindings read query (bound ++ int64 n v ∷ []) bs),
)

-- A database that reads all statements of a session as they are meant does what is documented.
pub database-Documented :
    (read : Reading) (i : ℕ)
    → ((st : Statement) → read (query_of i st) (bindings_of i st) ≡ some (i, st))
    → Documented (database read) (λ s. s) i
database-Documented read i right = record {
  runs = λ st db accepted. (
    refl,
    (
      (query_of i st, bindings_of i st),
      with_bindings read (query_of i st) [] (bindings_of i st),
      ap (λ (o : Option (ℕ × Statement)). (run_parsed db o).0) (right st),
      ap (λ (o : Option (ℕ × Statement)). (run_parsed db o).1) (right st),
    ),
  );
  checkpoints = λ db. (refl, refl);
}

pub sqlite-Documented : Documented sqlite (λ s. s) i
sqlite-Documented = database-Documented read_one i read_one_lem
