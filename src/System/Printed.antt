-- ===== src/System/Printed.antt =====
-- From the events of the writes of a session to what `nhi fetch` prints: daemon/src/nhi.c,
-- daemon/src/sqlite.c and pkg/fetch/fetch.go together.
use mathlib.Core.List.{flatten}
use nhi.Prelude.{
  ℕ, ◌≡◌, refl, sym, subst, ap, ◌∙◌, Bool, List, [], ◌∷◌, ◌++◌, append_assoc, append-nil, some, All,
  map,
}
use nhi.Common.{Event, WriteEvent, written}
use nhi.Wire.Laws.{IsSent, event_of-encode}
use nhi.Daemon.Sqlite.{Sqlite}
use nhi.Daemon.Os.{Os}
use nhi.Daemon.Store.{Row, Store, Documented}
use nhi.Daemon.Handlers.{Daemon, handle_record, handle_event}
use nhi.Daemon.Handlers.Rows.{tables-with_rows}
use nhi.Daemon.Handlers.Effects.{written_appends}
use nhi.Daemon.Main.Delivery.{handle_all, rounds_of, still_running, main_loop_delivers}
use nhi.Daemon.Main.{main_loop, running}
use nhi.System.Sent.{All-unflatten}
use nhi.Cli.Printing.{Print, Run, prints, print_output}
use nhi.Cli.Printing.Recorded.{
  Stream, mark, Written, recorded, shown, shown_all, IsPlain, IsWritten,
}
use nhi.Cli.Printing.Shown.{print_output-recorded}

-- A write: its stream and its bytes.
abbrev pub StreamWrite : Type 0
StreamWrite = Stream × List ℕ

abbrev pub event_of_write : ℕ → StreamWrite → Event
event_of_write indicator (stream, bytes) =
    written (record { indicator = indicator; output = mark stream ∷ bytes })

abbrev pub as_written : StreamWrite → Written
as_written (stream, bytes) = record { stream = stream; bytes = bytes; children = [] }

-- What the writes show, each on its own stream.
abbrev pub shown_writes : Bool → Bool → (List ℕ → Run) → List StreamWrite → List Print
shown_writes red shells fetch [] = []
shown_writes red shells fetch ((stream, bytes) ∷ ws) =
    shown red shells fetch stream bytes ++ shown_writes red shells fetch ws

record_appends :
    (sq : Sqlite) (view : sq.Db → Store) (os : Os) (i : ℕ) (w : StreamWrite) (d : Daemon sq)
    (rows : List Row) (r : Row)
    → Documented sq view i
    → IsSent (event_of_write i w)
    → (view d.conn.db).tables i ≡ some (rows ++ r ∷ [])
    → (d' : Daemon sq) × (handle_record sq os (event_of_write i w) d ≡ some d')
      × ((view d'.conn.db).tables i
          ≡ some (rows ++ record r { output = r.output ++ mark w.0 ∷ w.1 } ∷ []))
unfolding handle_event
record_appends sq view os i w d rows r doc sent at =
    let write : WriteEvent = record { indicator = i; output = mark w.0 ∷ w.1 } in
    let done = written_appends sq view os d write rows r doc sent at in
    let row = rows ++ record r { output = r.output ++ mark w.0 ∷ w.1 } ∷ [] in
    (
      done.0,
      subst (λ e. handle_record sq os e d ≡ some done.0) (event_of-encode (written write) sent)
          done.1,
      ap (λ (s : Store). s.tables i) done.2 ∙ tables-with_rows i row (view d.conn.db),
    )

-- The handlers append the writes to the output of the last command.
writes_append :
    (sq : Sqlite) (view : sq.Db → Store) (os : Os) (i : ℕ) (ws : List StreamWrite) (d : Daemon sq)
    (rows : List Row) (r : Row)
    → Documented sq view i
    → All (λ w. IsSent (event_of_write i w)) ws
    → (view d.conn.db).tables i ≡ some (rows ++ r ∷ [])
    → (d' : Daemon sq) × (handle_all sq os (map (event_of_write i) ws) d ≡ some d')
      × ((view d'.conn.db).tables i
          ≡ some (rows ++ record r { output = r.output ++ recorded (map as_written ws) } ∷ []))
unfolding handle_all
writes_append sq view os i [] d rows r doc sent at = (
  d,
  refl,
  at ∙ ap (λ l. some (rows ++ record r { output = l } ∷ [])) (sym (append-nil r.output)),
)
writes_append sq view os i (w ∷ ws) d rows r doc sent at =
    let one = record_appends sq view os i w d rows r doc sent.0 at in
    let r' : Row = record r { output = r.output ++ mark w.0 ∷ w.1 } in
    let more = writes_append sq view os i ws one.0 rows r' doc sent.1 one.2 in
    (
      more.0,
      rw (handle_all, one.1) more.1,
      more.2
          ∙ ap (λ l. some (rows ++ record r { output = l } ∷ []))
              (append_assoc r.output (mark w.0 ∷ w.1) (recorded (map as_written ws))),
    )

writes-IsWritten :
    (ws : List StreamWrite) → All (λ w. All IsPlain w.1) ws → All IsWritten (map as_written ws)
writes-IsWritten [] h = tt
writes-IsWritten (w ∷ ws) h = ((h.0, tt), writes-IsWritten ws h.1)

shown_all-writes :
    (red shells : Bool) (fetch : List ℕ → Run) (ws : List StreamWrite)
    → shown_all red shells fetch (map as_written ws) ≡ prints (shown_writes red shells fetch ws)
shown_all-writes red shells fetch [] = refl
shown_all-writes red shells fetch (w ∷ ws) =
    rw (append-nil w.1, shown_all-writes red shells fetch ws) refl

events-IsSent :
    (i : ℕ) (ws : List StreamWrite)
    → All (λ w. IsSent (event_of_write i w)) ws
    → All IsSent (map (event_of_write i) ws)
events-IsSent i [] h = tt
events-IsSent i (w ∷ ws) h = (h.0, events-IsSent i ws h.1)

-- Writes of a session reach the ring buffer, the polls divide them in any way, and the last row of the
-- session has no output yet; SQLite is as documented, the events are as the kernel programs send them
-- and their bytes are below 253. Then the daemon keeps running, and the last row of the session gets an
-- output of which `nhi fetch` prints the bytes of each write that is not empty to the stream that it
-- went to, in the order of the writes, and nothing else.
pub writes_printed :
    (sq : Sqlite) (view : sq.Db → Store) (os : Os) (i : ℕ) (ws : List StreamWrite)
    (batches : List (List Event)) (d : Daemon sq) (rows : List Row) (r : Row) (red shells : Bool)
    (fetch : List ℕ → Run) (spare : List ℕ)
    → Documented sq view i
    → flatten batches ≡ map (event_of_write i) ws
    → All (λ w. IsSent (event_of_write i w)) ws
    → All (λ w. All IsPlain w.1) ws
    → (view d.conn.db).tables i ≡ some (rows ++ r ∷ [])
    → r.output ≡ []
    → (d' : Daemon sq) × (output : List ℕ) × (main_loop sq os (rounds_of batches) d ≡ running d')
      × ((view d'.conn.db).tables i ≡ some (rows ++ record r { output = output } ∷ []))
      × (print_output red shells fetch output spare ≡ prints (shown_writes red shells fetch ws))
writes_printed sq view os i ws batches d rows r red shells fetch spare doc e sent plain at empty =
    let events = events-IsSent i ws sent in
    let delivered =
      main_loop_delivers sq os batches d (All-unflatten batches (subst (All IsSent) (sym e) events))
      ∙ ap (λ es. still_running (handle_all sq os es d)) e in
    let kept = writes_append sq view os i ws d rows r doc sent at in
    (
      kept.0,
      recorded (map as_written ws),
      delivered ∙ ap still_running kept.1,
      kept.2
          ∙ ap (λ l. some (rows ++ record r { output = l ++ recorded (map as_written ws) } ∷ []))
              empty,
      print_output-recorded red shells fetch [] (map as_written ws) spare tt
            (writes-IsWritten ws plain)
          ∙ shown_all-writes red shells fetch ws,
    )
