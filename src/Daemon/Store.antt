-- ===== src/Daemon/Store.antt =====
-- What the database of nhi holds, and what the documentation of SQLite says that each SQL statement
-- which the daemon needs does to it. A table is named by its indicator, its rows stand in the order of
-- their rowids, and a column is `none` for NULL.
use nhi.Prelude.{ℕ, List, [], ◌∷◌, ◌++◌, ◌≡◌, Option, none, some, ◌==◌, if◌then◌else◌, map, codes}
use mathlib.Core.Option
use nhi.Daemon.Sqlite.{Sqlite, Binding, text, blob, int64, bind}
use nhi.Daemon.Decimal.{decimal}

-- A command, and the prompt before it.
pub record Row : Type 0 where
  pub ps1 : Option (List ℕ)
  pub command : Option (List ℕ)
  pub output : List ℕ
  pub exit_status : Option (List ℕ)
  pub pwd : Option (List ℕ)
  pub start_time : Option ℕ
  pub finish_time : Option ℕ
  pub indicator : Option ℕ

-- A shell session.
pub record Session : Type 0 where
  pub indicator : ℕ
  pub name : List ℕ
  pub start_time : ℕ
  pub finish_time : Option ℕ

pub record Store : Type 0 where
  pub tables : ℕ → Option (List Row)
  pub meta : List Session

abbrev pub empty_row : Row
empty_row = record {
  ps1 = none;
  command = none;
  output = [];
  exit_status = none;
  pwd = none;
  start_time = none;
  finish_time = none;
  indicator = none;
}

-- The row with the largest rowid.
unfoldable pub update_last : (Row → Row) → List Row → List Row
update_last f [] = []
update_last f (r ∷ []) = f r ∷ []
update_last f (r ∷ r' ∷ rs) = r ∷ update_last f (r' ∷ rs)

unfoldable pub in_table : ℕ → (List Row → List Row) → Store → Store
in_table i f s = record s { tables = λ j. if j == i then Option.map f (s.tables j) else s.tables j }

-- The statements, with the values that are bound.
pub data Statement : Type 0 where
  create_table create_row : Statement
  set_ps1 set_command append_output set_exit_status set_pwd : List ℕ → Statement
  set_start_time set_finish_time set_indicator : ℕ → Statement
  meta_create_row : List ℕ → ℕ → Statement
  meta_add_finish_time : ℕ → Statement

-- UPDATE of the row of a session with the largest rowid.
abbrev pub update_last_row : ℕ → List ℕ → List ℕ → List ℕ
update_last_row i assignment condition =
    codes "UPDATE `"
    ++ (decimal i
        ++ (codes "` SET "
            ++ (assignment
                ++ (codes " WHERE "
                    ++ (condition
                        ++ (codes "rowid = (SELECT MAX(rowid) FROM `"
                            ++ (decimal i ++ codes "`);")))))))

-- The SQL of the statement about a session, in which `effect` below is what it says: written down here
-- on its own, with nothing of what daemon/src/sqlite.c prints.
abbrev pub query_of : ℕ → Statement → List ℕ
query_of i create_table =
    codes "CREATE TABLE `"
    ++ (decimal i
        ++ codes
            "` (PS1 TEXT, command TEXT, output BLOB, exit_status TEXT, pwd TEXT, start_time INTEGER, finish_time INTEGER, indicator INTEGER);")
query_of i create_row =
    codes "INSERT INTO `"
    ++ (decimal i ++ codes "` VALUES (NULL, NULL, '', NULL, NULL, NULL, NULL, NULL);")
query_of i (set_ps1 v) = update_last_row i (codes "PS1=?") []
query_of i (set_command v) = update_last_row i (codes "command=?") []
query_of i (append_output v) = update_last_row i (codes "output=output || ?") []
query_of i (set_exit_status v) = update_last_row i (codes "exit_status=?") []
query_of i (set_pwd v) = update_last_row i (codes "pwd=?") []
query_of i (set_start_time t) =
    update_last_row i (codes "start_time=?") (codes "start_time is NULL AND ")
query_of i (set_finish_time t) = update_last_row i (codes "finish_time=?") []
query_of i (set_indicator k) = update_last_row i (codes "indicator=?") []
query_of i (meta_create_row name t) = codes "INSERT INTO `meta` VALUES (?1, ?2, ?3, NULL);"
query_of i (meta_add_finish_time t) = codes "UPDATE `meta` SET finish_time=?1 WHERE indicator=?2;"

abbrev pub bindings_of : ℕ → Statement → List Binding
bindings_of i create_table = []
bindings_of i create_row = []
bindings_of i (set_ps1 v) = text 1 v ∷ []
bindings_of i (set_command v) = text 1 v ∷ []
bindings_of i (append_output v) = blob 1 v ∷ []
bindings_of i (set_exit_status v) = text 1 v ∷ []
bindings_of i (set_pwd v) = text 1 v ∷ []
bindings_of i (set_start_time t) = int64 1 t ∷ []
bindings_of i (set_finish_time t) = int64 1 t ∷ []
bindings_of i (set_indicator k) = int64 1 k ∷ []
bindings_of i (meta_create_row name t) = int64 1 i ∷ text 2 name ∷ int64 3 t ∷ []
bindings_of i (meta_add_finish_time t) = int64 1 t ∷ int64 2 i ∷ []

unfoldable pub start_unless : ℕ → Row → Row
start_unless t r = elim r.start_time [ none ↦ record r { start_time = some t } | some t' ↦ r ]

unfoldable pub finish_session : ℕ → ℕ → Session → Session
finish_session i t m = if m.indicator == i then record m { finish_time = some t } else m

-- What a statement does.
unfoldable pub effect : ℕ → Statement → Store → Store
unfolding in_table update_last start_unless finish_session
effect i create_table s = record s { tables = λ j. if j == i then some [] else s.tables j }
effect i create_row s = in_table i (λ rows. rows ++ empty_row ∷ []) s
effect i (set_ps1 v) s = in_table i (update_last (λ r. record r { ps1 = some v })) s
effect i (set_command v) s = in_table i (update_last (λ r. record r { command = some v })) s
effect i (append_output v) s = in_table i (update_last (λ r. record r { output = r.output ++ v })) s
effect i (set_exit_status v) s = in_table i (update_last (λ r. record r { exit_status = some v })) s
effect i (set_pwd v) s = in_table i (update_last (λ r. record r { pwd = some v })) s
effect i (set_start_time t) s = in_table i (update_last (start_unless t)) s
effect i (set_finish_time t) s = in_table i (update_last (λ r. record r { finish_time = some t })) s
effect i (set_indicator k) s = in_table i (update_last (λ r. record r { indicator = some k })) s
effect i (meta_create_row name t) s = record s {
  meta = s.meta ++ record { indicator = i; name = name; start_time = t; finish_time = none } ∷ [];
}
effect i (meta_add_finish_time t) s = record s { meta = map (finish_session i t) s.meta }

-- When SQLite accepts it: a table is created once, and its rows are changed while it is there.
abbrev pub IsAccepted : ℕ → Statement → Store → Type 0
IsAccepted i create_table s = s.tables i ≡ none
IsAccepted i (meta_create_row name t) s = Unit {0}
IsAccepted i (meta_add_finish_time t) s = Unit {0}
IsAccepted i _ s = (rows : List Row) × (s.tables i ≡ some rows)

-- All bindings are taken, in order.
unfoldable pub Binds : (sq : Sqlite) → sq.Stmt → List Binding → sq.Stmt → Type 0
Binds sq stmt [] end = stmt ≡ end
Binds sq stmt (b ∷ bs) end = ((bind sq stmt b).0 ≡ none) × Binds sq (bind sq stmt b).1 bs end

-- SQLite does to the session `i` what its documentation says: a statement that it accepts is
-- prepared, bound and stepped without an error, the database then shows the effect, and a
-- checkpoint changes nothing that can be seen. `view` reads the database.
pub record Documented (sq : Sqlite) (view : sq.Db → Store) (i : ℕ) : Type 0 where
  pub runs :
      (st : Statement) (db : sq.Db)
      → IsAccepted i st (view db)
      → ((sq.prepare_v2 db (query_of i st)).0 ≡ none)
        × ((end : sq.Stmt) × Binds sq (sq.prepare_v2 db (query_of i st)).1 (bindings_of i st) end
            × ((sq.step db end).0 ≡ none)
            × (view (sq.finalize (sq.step db end).1 end) ≡ effect i st (view db)))
  pub checkpoints :
      (db : sq.Db)
      → ((sq.wal_checkpoint_v2 db).0 ≡ none) × (view (sq.wal_checkpoint_v2 db).1 ≡ view db)
