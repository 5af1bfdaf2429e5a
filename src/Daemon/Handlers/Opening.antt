-- ===== src/Daemon/Handlers/Opening.antt =====
-- What the statements for a new session do: the first half of `handle_kill_SIGUSR` of
-- daemon/src/nhi.c.
use nhi.Prelude.{
  ℕ, ◌+◌, ◌≡◌, refl, subst, true, List, [], ◌∷◌, ◌++◌, none, some, arith, length, leb, take,
}
use nhi.Daemon.Decimal.{decimal}
use nhi.Daemon.Sqlite.{Sqlite, Message, Connection}
use nhi.Daemon.Os.{Os}
use nhi.Daemon.Store.{
  Row, Session, Store, empty_row, effect, Documented, create_table, create_row,
  meta_create_row as meta_row,
}
use nhi.Daemon.Statements.{
  sprintf_once, create_table_query, create_row_query, meta_create_row_query,
}
use nhi.Daemon.Statements.Buffers.{Fits}
use nhi.Daemon.Writers.{create_table as new_table, create_row as insert_row, meta_create_row, tick}
use nhi.Daemon.Writers.Effects.{Shows, execute-effect}
use nhi.Daemon.Handlers.Rows.{with_rows, tables-with_rows, in_table-with_rows}
use nhi.Daemon.Handlers.Completion.{run, Shows-tick}

-- A new session, and the database with it.
abbrev pub new_session : ℕ → ℕ → Session
new_session k t = record {
  indicator = k;
  name = take 11 (decimal k);
  start_time = t;
  finish_time = none;
}

unfoldable pub with_session : Session → Store → Store
with_session m s = record s { meta = s.meta ++ m ∷ [] }

create_table-rows : (k : ℕ) (s : Store) → effect k create_table s ≡ with_rows k [] s
unfolding effect with_rows
create_table-rows k s = refl

create_row-rows :
    (k : ℕ) (rows : List Row) (s : Store)
    → effect k create_row (with_rows k rows s) ≡ with_rows k (rows ++ empty_row ∷ []) s
unfolding effect
create_row-rows k rows s = in_table-with_rows k (λ rows. rows ++ empty_row ∷ []) rows s

meta_row-rows :
    (k t : ℕ) (rows : List Row) (s : Store)
    → effect k (meta_row (take 11 (decimal k)) t) (with_rows k rows s)
      ≡ with_rows k rows (with_session (new_session k t) s)
unfolding effect with_rows with_session
meta_row-rows k t rows s = refl

module _ (sq : Sqlite) (os : Os) (k : ℕ) where
  -- The connection after the three statements for a new session.
  abbrev pub opened : Connection sq → Connection sq
  opened conn =
      let c2 = run sq k create_row (run sq k create_table conn) in
      run sq k (meta_row (take 11 (decimal k)) (os.now c2.ticks).tv_sec) (tick sq os.now c2)

  -- The text for the table stays within the array and what the compiler leaves unused behind it.
  pub opened-runs :
      (conn : Connection sq)
      → Fits (150 + os.slack) (create_table_query k)
      → (conn' : Connection sq) × (new_table sq os.now os.slack k conn ≡ some conn')
        × (meta_create_row sq os.now k (insert_row sq os.now k conn') ≡ opened conn)
  unfolding new_table insert_row meta_create_row create_table_query create_row_query
      meta_create_row_query sprintf_once
  opened-runs conn fits =
      let within : leb (length (create_table_query k) + 1) (150 + os.slack) ≡ true =
        ground (arith, fits) in
      (run sq k create_table conn, rw (new_table, within) refl, refl)

module _ {sq : Sqlite} {view : sq.Db → Store} {k : ℕ} (doc : Documented sq view k) (os : Os) where
  -- The three statements for a session that is new.
  pub new_session-effect :
      {conn : Connection sq} {s : Store} {l : List Message} {n : ℕ}
      → s.tables k ≡ none
      → Shows view conn s l n
      → Shows view
          (opened sq os k conn)
          (with_rows k (empty_row ∷ []) (with_session (new_session k (os.now n).tv_sec) s))
          l
          (n + 1)
  new_session-effect {conn} {s} {l} {n} fresh shows =
      let c1 = run sq k create_table conn in
      let c2 = run sq k create_row c1 in
      let t = (os.now c2.ticks).tv_sec in
      let c3 = run sq k (meta_row (take 11 (decimal k)) t) (tick sq os.now c2) in
      let s1 =
        subst (λ x. Shows view c1 x l n) (create_table-rows k s)
          (execute-effect doc shows create_table fresh) in
      let s2 =
        subst (λ x. Shows view c2 x l n) (create_row-rows k [] s)
          (execute-effect doc s1 create_row ([], tables-with_rows k [] s)) in
      let s3 =
        subst (λ x. Shows view c3 x l (n + 1)) (meta_row-rows k t (empty_row ∷ []) s)
          (execute-effect doc (Shows-tick doc os s2) (meta_row (take 11 (decimal k)) t) tt) in
      subst
        (λ a.
          Shows view c3
            (with_rows k (empty_row ∷ []) (with_session (new_session k (os.now a).tv_sec) s)) l
            (n + 1))
        s2.ticks s3
