-- ===== src/Daemon/Writers/Effects.antt =====
-- With a SQLite that is as documented, a statement of the daemon has its effect and logs nothing.
use nhi.Prelude.{ℕ, List, [], ◌∷◌, ◌≡◌, ap, ◌∙◌, sym, subst}
use nhi.Daemon.Sqlite.{Sqlite, Message, Connection, Binding, bind, bind_all, execute, checkpoint}
use nhi.Daemon.Store.{
  Store, Statement, query_of, bindings_of, effect, IsAccepted, Binds, Documented,
}

-- The connection shows the store, has written this log, and has read the clock so often.
pub record Shows {sq : Sqlite} (view : sq.Db → Store) (conn : Connection sq) (s : Store)
    (l : List Message) (n : ℕ) : Type 0 where
  pub store : view conn.db ≡ s
  pub log : conn.log ≡ l
  pub ticks : conn.ticks ≡ n

bind_all-Binds :
    (sq : Sqlite) (stmt : sq.Stmt) (bs : List Binding) (end : sq.Stmt) (conn : Connection sq)
    → Binds sq stmt bs end
    → bind_all sq stmt bs conn ≡ (end, conn)
unfolding bind_all Binds
bind_all-Binds sq stmt [] end conn e = rw e
bind_all-Binds sq stmt (b ∷ bs) end conn (ok, rest) =
    rw ok (bind_all-Binds sq (bind sq stmt b).1 bs end conn rest)

module _ {sq : Sqlite} {view : sq.Db → Store} {i : ℕ} (doc : Documented sq view i)
    {conn : Connection sq} {s : Store} {l : List Message} {n : ℕ}
    (shows : Shows view conn s l n) where
  pub execute-effect :
      (st : Statement)
      → IsAccepted i st s
      → Shows view (execute sq (query_of i st) (bindings_of i st) conn) (effect i st s) l n
  unfolding execute
  execute-effect st accepted =
      let accepted' = subst (IsAccepted i st) (sym shows.store) accepted in
      let (prepared, (end, bound, stepped, shown)) = doc.runs st conn.db accepted' in
      let bound' =
        bind_all-Binds sq (sq.prepare_v2 conn.db (query_of i st)).1 (bindings_of i st) end conn
          bound in
      rw (execute, prepared, bound', stepped)
        (record {
          store = shown ∙ ap (effect i st) shows.store;
          log = shows.log;
          ticks = shows.ticks;
        })

  pub checkpoint-effect : Shows view (checkpoint sq conn) s l n
  unfolding checkpoint
  checkpoint-effect =
      let (ok, same) = doc.checkpoints conn.db in
      rw (checkpoint, ok)
        (record { store = same ∙ shows.store; log = shows.log; ticks = shows.ticks })
