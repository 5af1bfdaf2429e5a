-- ===== src/Daemon/Sqlite.antt =====
-- The calls of SQLite that daemon/src/sqlite.c makes. SQLite is not part of the program: it is a
-- parameter, and each call says whether it succeeded (`none`) or the message that sqlite3_errmsg
-- then gives.
use nhi.Prelude.{ℕ, ◌+◌, List, [], ◌∷◌, ◌++◌, Option, none, some}

abbrev pub Message : Type 0
Message = List ℕ

pub record Sqlite : Type 1 where
  pub Db : Type 0
  pub Stmt : Type 0
  pub prepare_v2 : Db → List ℕ → Option Message × Stmt
  pub bind_text : Stmt → ℕ → List ℕ → Option Message × Stmt
  pub bind_blob : Stmt → ℕ → List ℕ → Option Message × Stmt
  pub bind_int64 : Stmt → ℕ → ℕ → Option Message × Stmt
  pub step : Db → Stmt → Option Message × Db
  pub finalize : Db → Stmt → Db
  -- with SQLITE_CHECKPOINT_TRUNCATE
  pub wal_checkpoint_v2 : Db → Option Message × Db

-- A value for the parameter of that number.
pub data Binding : Type 0 where
  text : ℕ → List ℕ → Binding
  blob : ℕ → List ℕ → Binding
  int64 : ℕ → ℕ → Binding

-- The open database, the lines that `write_log` has written, and how often the clock was read.
pub record Connection (sq : Sqlite) : Type 0 where
  pub db : sq.Db
  pub log : List Message
  pub ticks : ℕ

module _ (sq : Sqlite) where
  -- `write_log(sqlite3_errmsg(db))` after a call that failed; write_log reads the clock.
  abbrev pub note : Option Message → Connection sq → Connection sq
  note none conn = conn
  note (some message) conn = record conn { log = conn.log ++ message ∷ []; ticks = conn.ticks + 1 }

  abbrev pub bind : sq.Stmt → Binding → Option Message × sq.Stmt
  bind stmt (text i value) = sq.bind_text stmt i value
  bind stmt (blob i value) = sq.bind_blob stmt i value
  bind stmt (int64 i value) = sq.bind_int64 stmt i value

  unfoldable pub bind_all : sq.Stmt → List Binding → Connection sq → sq.Stmt × Connection sq
  bind_all stmt [] conn = (stmt, conn)
  bind_all stmt (b ∷ bs) conn =
      let (failed, stmt') = bind stmt b in bind_all stmt' bs (note failed conn)

  -- What the functions do with a statement: a failure is logged, and the next call is made.
  unfoldable pub execute : List ℕ → List Binding → Connection sq → Connection sq
  unfolding bind_all
  execute query bindings conn =
      let (failed, stmt) = sq.prepare_v2 conn.db query in
      let (stmt', conn') = bind_all stmt bindings (note failed conn) in
      let (failed', db') = sq.step conn'.db stmt' in
      let conn'' = note failed' (record conn' { db = db' }) in
      record conn'' { db = sq.finalize conn''.db stmt' }

  -- The block at the end of the handlers.
  unfoldable pub checkpoint : Connection sq → Connection sq
  checkpoint conn =
      let (failed, db') = sq.wal_checkpoint_v2 conn.db in note failed (record conn { db = db' })
