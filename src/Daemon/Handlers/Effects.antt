-- ===== src/Daemon/Handlers/Effects.antt =====
-- What the handlers that write to the last row of a session do to the database.
use nhi.Prelude.{ℕ, ◌≡◌, refl, ◌∙◌, subst, List, [], ◌∷◌, ◌++◌, some}
use nhi.Common.{WriteEvent, written}
use nhi.Wire.{encode}
use nhi.Wire.Laws.{IsSent, event_of-encode}
use nhi.Daemon.Sqlite.{Sqlite, Message, Connection, execute}
use nhi.Daemon.Os.{Os}
use nhi.Daemon.Store.{
  Row, Store, Statement, query_of, bindings_of, effect, IsAccepted, Documented, append_output,
  in_table, update_last,
}
use nhi.Daemon.Statements.{sprintf_twice, add_output_query}
use nhi.Daemon.Writers.{add_output}
use nhi.Daemon.Writers.Effects.{Shows, execute-effect}
use nhi.Daemon.Handlers.{Daemon, handle_event, handle_record, handle_write}
use nhi.Daemon.Handlers.Rows.{with_rows, tables-with_rows, update-with_rows, with_rows-same}

module _ {sq : Sqlite} {view : sq.Db → Store} where
  pub Shows-start :
      (conn : Connection sq) {s : Store} → view conn.db ≡ s → Shows view conn s conn.log conn.ticks
  Shows-start conn e = record { store = e; log = refl; ticks = refl }

  module _ {i : ℕ} (doc : Documented sq view i) {conn : Connection sq} (rows : List Row) (r : Row)
      (s : Store) {l : List Message} {n : ℕ}
      (shows : Shows view conn (with_rows i (rows ++ r ∷ []) s) l n) where
    -- A statement that changes the last row.
    pub last_row-effect :
        (st : Statement) (f : Row → Row)
        → IsAccepted i st (with_rows i (rows ++ r ∷ []) s)
        → effect i st (with_rows i (rows ++ r ∷ []) s)
          ≡ in_table i (update_last f) (with_rows i (rows ++ r ∷ []) s)
        → Shows view
            (execute sq (query_of i st) (bindings_of i st) conn)
            (with_rows i (rows ++ f r ∷ []) s)
            l
            n
    last_row-effect st f accepted e =
        subst (λ x. Shows view (execute sq (query_of i st) (bindings_of i st) conn) x l n)
          (e ∙ update-with_rows i f rows r s) (execute-effect doc shows st accepted)

-- SQLite is as documented for a session that has rows, and the kernel programs send a write of it. The
-- daemon reads it, appends exactly the bytes that were sent to the output of the last command, changes
-- nothing else and logs nothing: a lemma for the writes that follow each other.
pub written_appends :
    (sq : Sqlite) (view : sq.Db → Store) (os : Os) (d : Daemon sq) (w : WriteEvent)
    (rows : List Row) (r : Row)
    → Documented sq view w.indicator
    → IsSent (written w)
    → (view d.conn.db).tables w.indicator ≡ some (rows ++ r ∷ [])
    → (d' : Daemon sq) × (handle_event sq os (encode (written w)) d ≡ some d')
      × (view d'.conn.db
          ≡ with_rows w.indicator
              (rows ++ record r { output = r.output ++ w.output } ∷ [])
              (view d.conn.db))
      × (d'.conn.log ≡ d.conn.log)
unfolding handle_event handle_record handle_write add_output add_output_query sprintf_twice
written_appends sq view os d w rows r doc sent at =
    let start =
      Shows-start d.conn (with_rows-same w.indicator (rows ++ r ∷ []) (view d.conn.db) at) in
    let done =
      last_row-effect doc rows r (view d.conn.db) start (append_output w.output)
        (λ r. record r { output = r.output ++ w.output })
        (rows ++ r ∷ [], tables-with_rows w.indicator (rows ++ r ∷ []) (view d.conn.db))
        (unfold effect in refl) in
    (handle_write sq os w d, rw (event_of-encode (written w) sent) refl, done.store, done.log)
