-- ===== src/Daemon/Handlers/Session.antt =====
-- `handle_kill_SIGUSR` of daemon/src/nhi.c, with which a shell announces itself.
use nhi.Prelude.{
  ℕ, ◌+◌, ◌%◌, ◌<◌, ◌≡◌, ◌≢◌, refl, ◌∙◌, subst, List, [], ◌∷◌, ◌++◌, Option, none, some, codes,
  length, take, set, sym, ne→==,
}
use nhi.Common.{Shell, KillEvent, shell_pid_of, zero_shell, shells_max_entries}
use nhi.Kernel.Table.{find_pid, IsTable}
use nhi.Kernel.Table.Lookup.{free_loop-room, set-IsTable}
use nhi.Daemon.Clock.{get_indicator}
use nhi.Daemon.Decimal.{decimal}
use nhi.Daemon.Sqlite.{Sqlite, Connection}
use nhi.Daemon.Os.{Os, line, fgets, getenv}
use nhi.Daemon.Environ.{get_shell_environ_address, get_shell_environ}
use nhi.Daemon.Store.{Store, empty_row, Documented}
use nhi.Daemon.Statements.{create_table_query}
use nhi.Daemon.Statements.Buffers.{Fits}
use nhi.Daemon.Writers.{tick}
use nhi.Daemon.Writers.Effects.{Shows}
use nhi.Daemon.Handlers.{
  Daemon, finish_prompt, free_key, finish_sigusr, read_terminal, with_terminal, add_shell,
  start_session, handle_kill_sigusr,
}
use nhi.Daemon.Handlers.Rows.{prompt_row, with_rows}
use nhi.Daemon.Handlers.Effects.{Shows-start}
use nhi.Daemon.Handlers.Completion.{finish_prompt-effect}
use nhi.Daemon.Handlers.Opening.{new_session, with_session, opened, opened-runs, new_session-effect}

-- The entry that a shell gets in the map.
abbrev pub shell_entry : Os → ℕ → ℕ → ℕ → List ℕ → Shell
shell_entry os shell_pid indicator address terminal = record {
  shell_pid = shell_pid;
  indicator = indicator;
  omit_write = os.uninitialised;
  environ_address = address;
  terminal = take 8 (terminal ++ 0 ∷ os.garbage);
  terminal_len = (length terminal + 255) % 256;
}

-- What the daemon reads of the system for a new shell: the address of its environment, the
-- environment with its two variables, and the name of its terminal.
pub record Reads (os : Os) (environ : Option (List (List ℕ))) (shell_pid sig : ℕ) : Type 0 where
  pub address : ℕ
  pub not_null : address ≢ 0
  pub finds : get_shell_environ_address os shell_pid sig ≡ (address, [])
  pub env : List (List ℕ)
  pub loads : get_shell_environ os shell_pid address environ ≡ (some env, [])
  pub text : List ℕ
  pub tty :
      os.popen_with env
        (codes "ps -p " ++ (decimal shell_pid ++ codes " -o tty= | awk -F'/' '{ print $NF }'"))
      ≡ some (line text)
  pub ps1 : List ℕ
  pub has_ps1 : getenv (codes "NHI_PS1") env ≡ some ps1
  pub pwd : List ℕ
  pub has_pwd : getenv (codes "PWD") env ≡ some pwd

free_key-room :
    (sq : Sqlite) (os : Os) {shells ss : List Shell}
    → IsTable shell_pid_of zero_shell shells_max_entries shells ss
    → length ss < shells_max_entries
    → free_key sq os shells ≡ length ss
unfolding free_key
free_key-room sq os t room = rw (free_key, free_loop-room t refl room) refl

module _ (sq : Sqlite) (os : Os) (key shell_pid indicator : ℕ) where
  read_terminal-runs :
      (address : ℕ) (text : List ℕ) (env : List (List ℕ)) (d : Daemon sq)
      → d.environ ≡ some env
      → os.popen_with env
          (codes "ps -p " ++ (decimal shell_pid ++ codes " -o tty= | awk -F'/' '{ print $NF }'"))
        ≡ some (line text)
      → read_terminal sq os key shell_pid indicator address d
        ≡ finish_sigusr sq os key shell_pid indicator address (fgets 8 text) d
  unfolding read_terminal with_terminal
  read_terminal-runs address text env d here e = rw (read_terminal, here, e) refl

  add_shell-runs :
      (address : ℕ) (env : List (List ℕ)) (d : Daemon sq)
      → address ≢ 0
      → get_shell_environ os shell_pid address d.environ ≡ (some env, [])
      → add_shell sq os key shell_pid indicator (address, []) d
        ≡ read_terminal sq os key shell_pid indicator address (record d { environ = some env })
  unfolding add_shell
  add_shell-runs address env d nz e = rw (add_shell, ne→== address 0 nz, e) refl

  finish_sigusr-runs :
      (address : ℕ) (text : List ℕ) (d d' : Daemon sq)
      → finish_prompt sq os indicator d ≡ some d'
      → finish_sigusr sq os key shell_pid indicator address text d
        ≡ some (record d' {
          shells = set d'.shells key (shell_entry os shell_pid indicator address text);
        })
  unfolding finish_sigusr
  finish_sigusr-runs address text d d' e = rw (finish_sigusr, e) refl

module _ {sq : Sqlite} {view : sq.Db → Store} (os : Os) (d : Daemon sq) (e : KillEvent)
    (doc : Documented sq view (get_indicator (os.now d.conn.ticks)))
    (reads : Reads os d.environ e.shell_pid e.sig) (started : Connection sq)
    (is_started : start_session sq os e.parent_shell_indicator
        (get_indicator (os.now d.conn.ticks))
        (tick sq os.now d.conn)
      ≡ some started) where
  -- From the session in the database to the entry in the map.
  pub announce-effect :
      (ss : List Shell) (s : Store) {n : ℕ}
      → IsTable shell_pid_of zero_shell shells_max_entries d.shells ss
      → length ss < shells_max_entries
      → e.shell_pid ≢ 0
      → find_pid shell_pid_of e.shell_pid ss ≡ none
      → let k = get_indicator (os.now d.conn.ticks) in
        Shows view started (with_rows k (empty_row ∷ []) s) d.conn.log n
        → (d' : Daemon sq) × (handle_kill_sigusr sq os e d ≡ some d')
          × (view d'.conn.db ≡ with_rows k (prompt_row reads.ps1 reads.pwd ∷ []) s)
          × (d'.conn.log ≡ d.conn.log)
          × (d'.environ ≡ none)
          × IsTable shell_pid_of zero_shell shells_max_entries d'.shells
              (ss ++ shell_entry os e.shell_pid k reads.address (fgets 8 reads.text) ∷ [])
  unfolding handle_kill_sigusr
  announce-effect ss s {n} t room nz fresh shows =
      let k = get_indicator (os.now d.conn.ticks) in
      let loaded = record d { conn = started; environ = some reads.env } in
      let (d', runs, shown, same, shells) =
        finish_prompt-effect doc os loaded reads.env [] empty_row s reads.ps1 reads.pwd refl
          reads.has_ps1 reads.has_pwd shows in
      let entry = shell_entry os e.shell_pid k reads.address (fgets 8 reads.text) in
      let table = set-IsTable t entry room nz fresh in
      (
        record d' { shells = set d'.shells (length ss) entry },
        rw (is_started, free_key-room sq os t room, reads.finds)
            (add_shell-runs sq os (length ss) e.shell_pid k reads.address reads.env
                (record d { conn = started }) reads.not_null reads.loads
              ∙ read_terminal-runs sq os (length ss) e.shell_pid k reads.address reads.text
                  reads.env loaded refl reads.tty
              ∙ finish_sigusr-runs sq os (length ss) e.shell_pid k reads.address
                  (fgets 8 reads.text) loaded d' runs),
        shown.store,
        shown.log,
        same,
        subst
            (λ m.
              IsTable shell_pid_of zero_shell shells_max_entries (set m (length ss) entry)
                (ss ++ entry ∷ []))
            (sym shells) table,
      )

start_session-alone :
    (sq : Sqlite) (os : Os) (parent k : ℕ) (conn : Connection sq)
    → parent ≡ 0
    → Fits (150 + os.slack) (create_table_query k)
    → start_session sq os parent k conn ≡ some (opened sq os k conn)
unfolding start_session
start_session-alone sq os parent k conn e fits =
    let (conn', runs, same) = opened-runs sq os k conn fits in
    rw (start_session, e, runs, same) refl

pub session_starts :
    (sq : Sqlite) (view : sq.Db → Store) (os : Os) (d : Daemon sq) (e : KillEvent) (ss : List Shell)
    (reads : Reads os d.environ e.shell_pid e.sig)
    → Documented sq view (get_indicator (os.now d.conn.ticks))
    → IsTable shell_pid_of zero_shell shells_max_entries d.shells ss
    → length ss < shells_max_entries
    → e.shell_pid ≢ 0
    → find_pid shell_pid_of e.shell_pid ss ≡ none
    → e.parent_shell_indicator ≡ 0
    → Fits (150 + os.slack) (create_table_query (get_indicator (os.now d.conn.ticks)))
    → (view d.conn.db).tables (get_indicator (os.now d.conn.ticks)) ≡ none
    → let n = d.conn.ticks in
      let k = get_indicator (os.now n) in
      (d' : Daemon sq) × (handle_kill_sigusr sq os e d ≡ some d')
      × (view d'.conn.db
          ≡ with_rows k
              (prompt_row reads.ps1 reads.pwd ∷ [])
              (with_session (new_session k (os.now (n + 1)).tv_sec) (view d.conn.db)))
      × (d'.conn.log ≡ d.conn.log)
      × (d'.environ ≡ none)
      × IsTable shell_pid_of zero_shell shells_max_entries d'.shells
          (ss ++ shell_entry os e.shell_pid k reads.address (fgets 8 reads.text) ∷ [])
session_starts sq view os d e ss reads doc t room nz fresh alone fits unused =
    let k = get_indicator (os.now d.conn.ticks) in
    announce-effect os d e doc reads _
      (start_session-alone sq os e.parent_shell_indicator k (tick sq os.now d.conn) alone fits) ss
      (with_session (new_session k (os.now (d.conn.ticks + 1)).tv_sec) (view d.conn.db)) t room nz
      fresh (new_session-effect doc os unused (Shows-start (tick sq os.now d.conn) refl))
