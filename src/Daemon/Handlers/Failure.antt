-- ===== src/Daemon/Handlers/Failure.antt =====
-- Where `handle_kill_SIGRTMIN` of daemon/src/nhi.c ends the daemon.
use nhi.Prelude.{ℕ, ◌≡◌, refl, ◌∙◌, List, Option, none, codes, Option-cases, inl, inr}
use nhi.Common.{KillEvent, shells_max_entries}
use nhi.Daemon.Sqlite.{Sqlite}
use nhi.Daemon.Os.{Os, getenv}
use nhi.Daemon.Environ.{get_shell_environ}
use nhi.Daemon.Writers.{add_ps1, add_pwd, add_command, add_exit_status}
use nhi.Daemon.Handlers.{
  Daemon, reverse_environ, finish_prompt, end_command, handle_kill_sigrtmin, find_shell_loop,
  load_environ,
}

finish_prompt-original :
    (sq : Sqlite) (os : Os) (indicator : ℕ) (d : Daemon sq)
    → d.environ ≡ none
    → finish_prompt sq os indicator d ≡ none
unfolding finish_prompt reverse_environ add_ps1 add_pwd
finish_prompt-original sq os indicator d original =
    elim (Option-cases (getenv (codes "NHI_PS1") d.original_environ)) [
      | inl e ↦ rw (original, e) refl
      | inr (ps1, e) ↦ elim (Option-cases (getenv (codes "PWD") d.original_environ)) [
        | inl e' ↦ rw (original, e, e') refl
        | inr (pwd, e') ↦ rw (original, e, e') refl
      ]
    ]

-- Without a local environment the end of a command is not survived.
end_command-original :
    (sq : Sqlite) (os : Os) (indicator : ℕ) (d : Daemon sq)
    → d.environ ≡ none
    → end_command sq os indicator d ≡ none
unfolding end_command add_command add_exit_status
end_command-original sq os indicator d original =
    elim (Option-cases (getenv (codes "NHI_LAST_EXECUTED_COMMAND") d.original_environ)) [
      | inl e ↦ rw (original, e) refl
      | inr (command, e) ↦
          elim (Option-cases (getenv (codes "NHI_EXIT_STATUS") d.original_environ)) [
            | inl e' ↦ rw (original, e, e') refl
            | inr (status, e') ↦
                rw (original, e, e')
                  (finish_prompt-original sq os indicator (record d { conn = _; environ = none })
                    refl)
          ]
    ]

environ-unread :
    (os : Os) (shell_pid address : ℕ) (environ : Option (List (List ℕ)))
    → os.process_vm_readv shell_pid address 8 ≡ none
    → (get_shell_environ os shell_pid address environ).0 ≡ environ
unfolding get_shell_environ
environ-unread os shell_pid address environ e = rw (get_shell_environ, e) refl

-- The environment of the shell cannot be read while the original one stands: the daemon does not
-- survive the event. Either a variable is missing in the original one, and strlen is called on a
-- null pointer, or strings that were never allocated are freed.
pub sigrtmin_unreadable :
    (sq : Sqlite) (os : Os) (d : Daemon sq) (e : KillEvent)
    → ((address : ℕ) → os.process_vm_readv e.shell_pid address 8 ≡ none)
    → d.environ ≡ none
    → handle_kill_sigrtmin sq os e d ≡ none
unfolding handle_kill_sigrtmin
sigrtmin_unreadable sq os d e unreadable original =
    let found = find_shell_loop shells_max_entries 0 e.shell_pid d.shells in
    end_command-original sq os found.0 (load_environ sq os e.shell_pid found.1 d)
      (environ-unread os e.shell_pid found.1 d.environ (unreadable found.1) ∙ original)
