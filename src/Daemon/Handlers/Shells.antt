-- ===== src/Daemon/Handlers/Shells.antt =====
-- What the handlers of daemon/src/nhi.c do to the map of shells, which the kernel programs share.
use mathlib.Core.Option.{some-injective}
use nhi.Prelude.{
  ℕ, ◌≡◌, ◌⊎◌, inl, inr, refl, sym, ap, ◌∙◌, true, ◌||◌, List, ◌++◌, Option, none, some, ◌>>=◌,
  codes, ◌==◌, Bool-cases, Option-cases,
}
use nhi.Common.{
  Shell, KillEvent, Event, killed, child_created, shell_exited, written, sigusr1, sigusr2, sigrtmin,
  shells_max_entries,
}
use nhi.Kernel.Maps.{bpf_map_update_elem}
use nhi.Daemon.Clock.{get_indicator}
use nhi.Daemon.Environ.{get_shell_environ_address}
use nhi.Daemon.Decimal.{decimal}
use nhi.Daemon.Sqlite.{Sqlite, Message, Connection, checkpoint}
use nhi.Daemon.Os.{Os, Line, not_opened, not_read, line}
use nhi.Daemon.Writers.{
  add_ps1, add_pwd, add_command, add_exit_status, add_finish_time, add_indicator, create_row,
  add_start_time, tick,
}
use nhi.Daemon.Handlers.Session.{shell_entry}
use nhi.Daemon.Handlers.{
  Daemon, variable, reverse_environ, finish_prompt, end_command, finish_sigusr, read_terminal,
  with_terminal, popen_here, find_shell_loop, start_session, add_shell, free_key,
  handle_kill_sigusr, handle_kill_sigrtmin, handle_child_creation, handle_shell_exit, handle_write,
  handle_record,
}

-- What a chain returns, its rest returns, whatever the first step gives.
of_bind :
    {A B : Type 0} (P : B → Type 0) (o : Option A) (f : A → Option B) (b : B)
    → ((a : A) → f a ≡ some b → P b)
    → (o >>= f) ≡ some b
    → P b
of_bind P none f b rest e = absurd (cc e)
of_bind P (some a) f b rest e = rest a e

-- The map is as it was, or one entry of it is the process.
abbrev pub Announced : List Shell → ℕ → ℕ → List Shell → Type 0
Announced shells key pid shells' =
    (shells' ≡ shells)
    ⊎ ((helper : Shell) × (helper.shell_pid ≡ pid)
        × (shells' ≡ bpf_map_update_elem shells key helper))

module _ (sq : Sqlite) (os : Os) where
  reverse_environ-shells :
      (d d' : Daemon sq) → reverse_environ sq d ≡ some d' → d'.shells ≡ d.shells
  unfolding reverse_environ
  reverse_environ-shells d d' h = elim (Option-cases d.environ) [
    | inl e ↦ absurd (cc (rw (reverse_environ, e) at h))
    | inr (environ, e) ↦
        ap (λ (x : Daemon sq). x.shells) (sym (some-injective _ _ (rw (reverse_environ, e) at h)))
  ]

  finish_prompt-shells :
      (indicator : ℕ) (d d' : Daemon sq)
      → finish_prompt sq os indicator d ≡ some d'
      → d'.shells ≡ d.shells
  unfolding finish_prompt
  finish_prompt-shells indicator d d' =
      of_bind (λ x. x.shells ≡ d.shells)
        (add_ps1 sq os.now indicator (variable sq (codes "NHI_PS1") d) d.conn)
        (λ conn. add_pwd sq os.now indicator (variable sq (codes "PWD") d) conn >>= λ conn'.
          reverse_environ sq (record d { conn = checkpoint sq conn' }))
        d'
        (λ conn.
          of_bind (λ x. x.shells ≡ d.shells)
            (add_pwd sq os.now indicator (variable sq (codes "PWD") d) conn)
            (λ conn'. reverse_environ sq (record d { conn = checkpoint sq conn' })) d'
            (λ conn' h. reverse_environ-shells (record d { conn = checkpoint sq conn' }) d' h))

  end_command-shells :
      (indicator : ℕ) (d d' : Daemon sq)
      → end_command sq os indicator d ≡ some d'
      → d'.shells ≡ d.shells
  unfolding end_command
  end_command-shells indicator d d' =
      let rest : Connection sq → Option (Daemon sq) = λ conn'.
        finish_prompt sq os indicator (record d {
          conn =
              create_row sq os.now indicator
                (add_indicator sq os.now indicator (add_finish_time sq os.now indicator conn'));
        }) in
      of_bind (λ x. x.shells ≡ d.shells)
        (add_command sq os.now indicator (variable sq (codes "NHI_LAST_EXECUTED_COMMAND") d) d.conn)
        (λ conn.
          add_exit_status sq os.now indicator (variable sq (codes "NHI_EXIT_STATUS") d) conn
          >>= rest)
        d'
        (λ conn.
          of_bind (λ x. x.shells ≡ d.shells)
            (add_exit_status sq os.now indicator (variable sq (codes "NHI_EXIT_STATUS") d) conn)
            rest d' (λ conn' h. finish_prompt-shells indicator _ d' h))

  finish_sigusr-shells :
      (key pid indicator address : ℕ) (terminal : List ℕ) (d d' : Daemon sq)
      → finish_sigusr sq os key pid indicator address terminal d ≡ some d'
      → Announced d.shells key pid d'.shells
  unfolding finish_sigusr
  finish_sigusr-shells key pid indicator address terminal d d' h =
      elim (Option-cases (finish_prompt sq os indicator d)) [
        | inl e ↦ absurd (cc (rw (finish_sigusr, e) at h))
        | inr (d1, e) ↦
            let entry = shell_entry os pid indicator address terminal in
            let same = finish_prompt-shells indicator d d1 e in
            inr (
              entry,
              refl,
              ap (λ (x : Daemon sq). x.shells)
                    (sym (some-injective _ _ (rw (finish_sigusr, e) at h)))
                  ∙ ap (λ l. bpf_map_update_elem l key entry) same,
            )
      ]

  with_terminal-shells :
      (key pid indicator address : ℕ) (d d' : Daemon sq) (l : Line)
      → with_terminal sq os key pid indicator address d l ≡ some d'
      → Announced d.shells key pid d'.shells
  unfolding with_terminal
  with_terminal-shells key pid indicator address d d' not_opened h =
      inl (ap (λ (x : Daemon sq). x.shells) (sym (some-injective _ _ h)))
  with_terminal-shells key pid indicator address d d' not_read h =
      inl (ap (λ (x : Daemon sq). x.shells) (sym (some-injective _ _ h)))
  with_terminal-shells key pid indicator address d d' (line text) h =
      finish_sigusr-shells key pid indicator address _ d d' h

  read_terminal-shells :
      (key pid indicator address : ℕ) (d d' : Daemon sq)
      → read_terminal sq os key pid indicator address d ≡ some d'
      → Announced d.shells key pid d'.shells
  unfolding read_terminal
  read_terminal-shells key pid indicator address d d' =
      of_bind (λ x. Announced d.shells key pid x.shells)
        (popen_here sq os
          (codes "ps -p " ++ (decimal pid ++ codes " -o tty= | awk -F'/' '{ print $NF }'")) d)
        (with_terminal sq os key pid indicator address d) d'
        (λ l. with_terminal-shells key pid indicator address d d' l)

  add_shell-shells :
      (key pid indicator address : ℕ) (messages : List Message) (d d' : Daemon sq)
      → add_shell sq os key pid indicator (address, messages) d ≡ some d'
      → Announced d.shells key pid d'.shells
  unfolding add_shell
  add_shell-shells key pid indicator address messages d d' h = elim (Bool-cases (address == 0)) [
    | inl null ↦
        inl
          (ap (λ (x : Daemon sq). x.shells) (sym (some-injective _ _ (rw (add_shell, null) at h))))
    | inr found ↦ read_terminal-shells key pid indicator address _ d' (rw (add_shell, found) at h)
  ]

  sigusr-shells :
      (k : KillEvent) (d d' : Daemon sq)
      → handle_kill_sigusr sq os k d ≡ some d'
      → Announced d.shells (free_key sq os d.shells) k.shell_pid d'.shells
  unfolding handle_kill_sigusr
  sigusr-shells k d d' =
      let indicator = get_indicator (os.now d.conn.ticks) in
      let found = get_shell_environ_address os k.shell_pid k.sig in
      of_bind (λ x. Announced d.shells (free_key sq os d.shells) k.shell_pid x.shells)
        (start_session sq os k.parent_shell_indicator indicator (tick sq os.now d.conn))
        (λ conn.
          add_shell sq os (free_key sq os d.shells) k.shell_pid indicator found
            (record d { conn = conn }))
        d'
        (λ conn h.
          add_shell-shells (free_key sq os d.shells) k.shell_pid indicator found.0 found.1
            (record d { conn = conn }) d' h)

  child-shells :
      (pid : ℕ) (d d' : Daemon sq)
      → handle_child_creation sq os pid d ≡ some d'
      → d'.shells ≡ d.shells
  unfolding handle_child_creation
  child-shells pid d d' =
      of_bind (λ x. x.shells ≡ d.shells)
        (add_start_time sq os.now os.slack (find_shell_loop shells_max_entries 0 pid d.shells).0
          d.conn)
        (λ conn. some (record d { conn = conn })) d'
        (λ conn h. ap (λ (x : Daemon sq). x.shells) (sym (some-injective _ _ h)))

  -- An announcement changes one entry of the map at most, and no other event changes it.
  pub handle_record-shells :
      (e : Event) (d d' : Daemon sq)
      → handle_record sq os e d ≡ some d'
      → (d'.shells ≡ d.shells)
        ⊎ ((k : KillEvent) × (e ≡ killed k)
            × ((k.sig == sigusr1 || k.sig == sigusr2) ≡ true)
            × Announced d.shells (free_key sq os d.shells) k.shell_pid d'.shells)
  unfolding handle_record handle_kill_sigrtmin handle_shell_exit handle_write
  handle_record-shells (killed k) d d' h =
      elim (Bool-cases (k.sig == sigusr1 || k.sig == sigusr2)) [
        | inl announces ↦
            inr (k, refl, announces, sigusr-shells k d d' (rw (handle_record, announces) at h))
        | inr other ↦ elim (Bool-cases (k.sig == sigrtmin)) [
          | inl prompt ↦ inl (end_command-shells _ _ d' (rw (handle_record, other, prompt) at h))
          | inr unknown ↦ inl (
              ap (λ (x : Daemon sq). x.shells)
                (sym (some-injective _ _ (rw (handle_record, other, unknown) at h))))
        ]
      ]
  handle_record-shells (child_created pid) d d' h = inl (child-shells pid d d' h)
  handle_record-shells (shell_exited e) d d' h =
      inl (ap (λ (x : Daemon sq). x.shells) (sym (some-injective _ _ h)))
  handle_record-shells (written e) d d' h =
      inl (ap (λ (x : Daemon sq). x.shells) (sym (some-injective _ _ h)))
