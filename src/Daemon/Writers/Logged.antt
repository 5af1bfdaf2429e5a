-- ===== src/Daemon/Writers/Logged.antt =====
-- What a statement of daemon/src/sqlite.c adds to the log and reads of the clock, whatever SQLite
-- answers.
use nhi.Prelude.{
  ℕ, ◌+◌, ◌≤◌, ◌≡◌, refl, sym, ap, ◌∙◌, List, [], ◌∷◌, ◌++◌, append_assoc, append-nil, Option, none,
  some, arith, length, length-append,
}
use nhi.Daemon.Clock.{Timeval}
use nhi.Daemon.Sqlite.{Sqlite, Message, Binding, Connection, note, bind, bind_all, execute}
use nhi.Daemon.Writers.{tick}

module _ (sq : Sqlite) where
  -- `conn'` has logged at most so many lines more than `conn`, and read the clock once for each of them
  -- and so often besides.
  pub record Logged (lines ticks : ℕ) (conn conn' : Connection sq) : Type 0 where
    pub messages : List Message
    pub log : conn'.log ≡ conn.log ++ messages
    pub few : length messages ≤ lines
    pub clock : conn'.ticks ≡ conn.ticks + length messages + ticks

  note-Logged :
      (failed : Option Message) (conn : Connection sq) → Logged 1 0 conn (note sq failed conn)
  note-Logged none conn = record {
    messages = [];
    log = sym (append-nil conn.log);
    few = omega arith;
    clock = omega arith;
  }
  note-Logged (some m) conn = record {
    messages = m ∷ [];
    log = refl;
    few = omega arith;
    clock = omega arith;
  }

  Logged-trans :
      {k l t u : ℕ} {a b c : Connection sq}
      → Logged k t a b
      → Logged l u b c
      → Logged (k + l) (t + u) a c
  Logged-trans {a = a} x y = record {
    messages = x.messages ++ y.messages;
    log = y.log ∙ ap (λ l. l ++ y.messages) x.log ∙ append_assoc a.log x.messages y.messages;
    few = omega (arith, length-append x.messages y.messages, x.few, y.few);
    clock = omega (arith, length-append x.messages y.messages, x.clock, y.clock);
  }

  bind_all-Logged :
      (stmt : sq.Stmt) (bs : List Binding) (conn : Connection sq)
      → Logged (length bs) 0 conn (bind_all sq stmt bs conn).1
  unfolding bind_all
  bind_all-Logged stmt [] conn = record {
    messages = [];
    log = sym (append-nil conn.log);
    few = omega arith;
    clock = omega arith;
  }
  bind_all-Logged stmt (b ∷ bs) conn =
      let r = bind sq stmt b in
      let x = Logged-trans (note-Logged r.0 conn) (bind_all-Logged r.1 bs (note sq r.0 conn)) in
      record { messages = x.messages; log = x.log; few = omega (arith, x.few); clock = x.clock }

  -- The log and the clock do not depend on the database, and fewer lines are few enough.
  Logged-mono :
      {k l t u : ℕ} {a b : Connection sq}
      → Logged k t a b
      → (db : sq.Db) → k ≤ l
      → t ≡ u
      → Logged l u a (record b { db = db })
  Logged-mono x db h e = record {
    messages = x.messages;
    log = x.log;
    few = omega (arith, x.few);
    clock = omega (arith, x.clock);
  }

  pub execute-Logged :
      (query : List ℕ) (bs : List Binding) (conn : Connection sq)
      → Logged (2 + length bs) 0 conn (execute sq query bs conn)
  unfolding execute
  execute-Logged query bs conn =
      let prepared = sq.prepare_v2 conn.db query in
      let conn' = note sq prepared.0 conn in
      let bound = bind_all sq prepared.1 bs conn' in
      let stepped = sq.step bound.1.db bound.0 in
      let conn'' = record bound.1 { db = stepped.1 } in
      let before =
        Logged-trans (note-Logged prepared.0 conn) (bind_all-Logged prepared.1 bs conn') in
      let moved : Logged (1 + length bs) 0 conn conn'' =
        Logged-mono before stepped.1 (omega arith) (omega arith) in
      let after = Logged-trans moved (note-Logged stepped.0 conn'') in
      Logged-mono after (sq.finalize (note sq stepped.0 conn'').db bound.0) (omega arith)
        (omega arith)

module _ (sq : Sqlite) (now : ℕ → Timeval) where
  pub ticked :
      (query : List ℕ) (bs : List Binding) (conn : Connection sq)
      → Logged sq (2 + length bs) 1 conn (execute sq query bs (tick sq now conn))
  ticked query bs conn =
      let x = execute-Logged sq query bs (tick sq now conn) in
      record { messages = x.messages; log = x.log; few = x.few; clock = omega (arith, x.clock) }
