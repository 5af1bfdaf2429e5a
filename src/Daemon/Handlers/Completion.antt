-- ===== src/Daemon/Handlers/Completion.antt =====
-- What `end_command` and `finish_prompt`, the parts of `handle_kill_SIGRTMIN` of daemon/src/nhi.c, do
-- to the database.
use nhi.Prelude.{ℕ, ◌+◌, ◌≡◌, refl, ap, ◌∙◌, subst, List, [], ◌∷◌, ◌++◌, none, some, codes}
use nhi.Daemon.Clock.{get_indicator}
use nhi.Daemon.Sqlite.{Sqlite, Message, Connection, execute, checkpoint}
use nhi.Daemon.Os.{Os, getenv}
use nhi.Daemon.Store.{
  Row, Store, Statement, query_of, bindings_of, empty_row, effect, Documented, create_row,
  set_command, set_exit_status, set_finish_time, set_indicator, set_ps1, set_pwd,
}
use nhi.Daemon.Statements.{
  sprintf_once, sprintf_twice, create_row_query, add_ps1_query, add_command_query,
  add_exit_status_query, add_pwd_query, add_finish_time_query, add_indicator_query,
}
use nhi.Daemon.Writers.{
  create_row as insert_row, add_ps1, add_pwd, add_command, add_exit_status, add_finish_time,
  add_indicator, tick,
}
use nhi.Daemon.Writers.Effects.{Shows, execute-effect, checkpoint-effect}
use nhi.Daemon.Handlers.{Daemon, reverse_environ, finish_prompt, end_command}
use nhi.Daemon.Handlers.Rows.{complete, prompt_row, with_rows, tables-with_rows, in_table-with_rows}
use nhi.Daemon.Handlers.Effects.{last_row-effect}

-- A statement of the daemon about a session.
abbrev pub run : (sq : Sqlite) → ℕ → Statement → Connection sq → Connection sq
run sq i st conn = execute sq (query_of i st) (bindings_of i st) conn

module _ {sq : Sqlite} {view : sq.Db → Store} {i : ℕ} (doc : Documented sq view i) (os : Os) where
  pub Shows-tick :
      {conn : Connection sq} {s : Store} {l : List Message} {n : ℕ}
      → Shows view conn s l n
      → Shows view (tick sq os.now conn) s l (n + 1)
  Shows-tick shows = record {
    store = shows.store;
    log = shows.log;
    ticks = ap (λ k. k + 1) shows.ticks;
  }

  pub finish_prompt-effect :
      (d : Daemon sq) (env : List (List ℕ)) (rows : List Row) (r : Row) (s : Store)
      (ps1 pwd : List ℕ) {l : List Message} {n : ℕ}
      → d.environ ≡ some env
      → getenv (codes "NHI_PS1") env ≡ some ps1
      → getenv (codes "PWD") env ≡ some pwd
      → Shows view d.conn (with_rows i (rows ++ r ∷ []) s) l n
      → (d' : Daemon sq) × (finish_prompt sq os i d ≡ some d')
        × Shows view d'.conn
            (with_rows i (rows ++ record r { ps1 = some ps1; pwd = some pwd } ∷ []) s)
            l
            n
        × (d'.environ ≡ none)
        × (d'.shells ≡ d.shells)
  unfolding finish_prompt reverse_environ
  finish_prompt-effect d env rows r s ps1 pwd environ e e' shows =
      let first =
        last_row-effect doc rows r s shows (set_ps1 ps1) (λ r. record r { ps1 = some ps1 })
          (rows ++ r ∷ [], tables-with_rows i (rows ++ r ∷ []) s) (unfold effect in refl) in
      let r' = record r { ps1 = some ps1 } in
      let second =
        last_row-effect doc rows r' s first (set_pwd pwd) (λ r. record r { pwd = some pwd })
          (rows ++ r' ∷ [], tables-with_rows i (rows ++ r' ∷ []) s) (unfold effect in refl) in
      let conn = run sq i (set_pwd pwd) (run sq i (set_ps1 ps1) d.conn) in
      (
        record d { conn = checkpoint sq conn; environ = none },
        unfold add_ps1 add_pwd add_ps1_query add_pwd_query sprintf_twice in
            rw (environ, e, e') refl,
        checkpoint-effect doc second,
        refl,
        refl,
      )

  -- The connection once the last row is complete and the new one is there.
  abbrev completed : List ℕ → List ℕ → Connection sq → Connection sq
  completed command exit_status conn =
      let c2 = run sq i (set_exit_status exit_status) (run sq i (set_command command) conn) in
      let c3 = run sq i (set_finish_time (os.now c2.ticks).tv_sec) (tick sq os.now c2) in
      let c4 = run sq i (set_indicator (get_indicator (os.now c3.ticks))) (tick sq os.now c3) in
      run sq i create_row c4

  end_command-runs :
      (d : Daemon sq) (env : List (List ℕ)) (command exit_status : List ℕ)
      → d.environ ≡ some env
      → getenv (codes "NHI_LAST_EXECUTED_COMMAND") env ≡ some command
      → getenv (codes "NHI_EXIT_STATUS") env ≡ some exit_status
      → end_command sq os i d
        ≡ finish_prompt sq os i (record d { conn = completed command exit_status d.conn })
  unfolding end_command add_command add_exit_status add_finish_time add_indicator insert_row
      create_row_query add_indicator_query add_finish_time_query add_exit_status_query
      add_command_query sprintf_once sprintf_twice
  end_command-runs d env command exit_status environ e1 e2 = rw (environ, e1, e2) refl

  -- The end of a command in a session that has its table, with all four variables there.
  pub end_command-effect :
      (d : Daemon sq) (env : List (List ℕ)) (rows : List Row) (r : Row) (s : Store)
      (command exit_status ps1 pwd : List ℕ) {l : List Message} {n : ℕ}
      → d.environ ≡ some env
      → getenv (codes "NHI_LAST_EXECUTED_COMMAND") env ≡ some command
      → getenv (codes "NHI_EXIT_STATUS") env ≡ some exit_status
      → getenv (codes "NHI_PS1") env ≡ some ps1
      → getenv (codes "PWD") env ≡ some pwd
      → Shows view d.conn (with_rows i (rows ++ r ∷ []) s) l n
      → (d' : Daemon sq) × (end_command sq os i d ≡ some d')
        × Shows view d'.conn
            (with_rows i
              ((rows
                  ++ complete command exit_status
                      (os.now n).tv_sec
                      (get_indicator (os.now (n + 1)))
                      r
                    ∷ [])
                ++ prompt_row ps1 pwd ∷ [])
              s)
            l
            (n + 1 + 1)
        × (d'.environ ≡ none)
        × (d'.shells ≡ d.shells)
  end_command-effect d env rows r s command exit_status ps1 pwd {l} {n} environ e1 e2 e3 e4 shows =
      let accepted = λ (l : List Row). tables-with_rows i l s in
      let r1 = record r { command = some command } in
      let r2 = record r1 { exit_status = some exit_status } in
      let s1 =
        last_row-effect doc rows r s shows (set_command command)
          (λ r. record r { command = some command }) (rows ++ r ∷ [], accepted (rows ++ r ∷ []))
          (unfold effect in refl) in
      let s2 =
        last_row-effect doc rows r1 s s1 (set_exit_status exit_status)
          (λ r. record r { exit_status = some exit_status })
          (rows ++ r1 ∷ [], accepted (rows ++ r1 ∷ [])) (unfold effect in refl) in
      let c2 = run sq i (set_exit_status exit_status) (run sq i (set_command command) d.conn) in
      let t = (os.now c2.ticks).tv_sec in
      let r3 = record r2 { finish_time = some t } in
      let s3 =
        last_row-effect doc rows r2 s (Shows-tick s2) (set_finish_time t)
          (λ r. record r { finish_time = some t }) (rows ++ r2 ∷ [], accepted (rows ++ r2 ∷ []))
          (unfold effect in refl) in
      let c3 = run sq i (set_finish_time t) (tick sq os.now c2) in
      let k = get_indicator (os.now c3.ticks) in
      let r4 = record r3 { indicator = some k } in
      let s4 =
        last_row-effect doc rows r3 s (Shows-tick s3) (set_indicator k)
          (λ r. record r { indicator = some k }) (rows ++ r3 ∷ [], accepted (rows ++ r3 ∷ []))
          (unfold effect in refl) in
      let c4 = run sq i (set_indicator k) (tick sq os.now c3) in
      let c5 = run sq i create_row c4 in
      let rows4 = rows ++ r4 ∷ [] in
      let inserted : effect i create_row (with_rows i rows4 s)
          ≡ with_rows i (rows4 ++ empty_row ∷ []) s =
        unfold effect in in_table-with_rows i (λ l. l ++ empty_row ∷ []) rows4 s in
      let s5 =
        subst (λ x. Shows view c5 x l (n + 1 + 1)) inserted
          (execute-effect doc s4 create_row (rows4, accepted rows4)) in
      let (d', runs, done, same, shells) =
        finish_prompt-effect (record d { conn = c5 }) env rows4 empty_row s ps1 pwd environ e3 e4
          s5 in
      let rows5 = λ (a b : ℕ).
        (rows ++ complete command exit_status (os.now a).tv_sec (get_indicator (os.now b)) r ∷ [])
        ++ prompt_row ps1 pwd ∷ [] in
      let done' =
        subst (λ b. Shows view d'.conn (with_rows i (rows5 n b) s) l (n + 1 + 1)) s3.ticks
          (subst (λ a. Shows view d'.conn (with_rows i (rows5 a c3.ticks) s) l (n + 1 + 1)) s2.ticks
            done) in
      (d', end_command-runs d env command exit_status environ e1 e2 ∙ runs, done', same, shells)
