-- ===== src/Kernel/Steps/Fields.antt =====
-- The fields of the entries and of the events stay within their types: `kill_something_info`,
-- `fork_tracepoint` and `do_exit` of daemon/src/nhi.bpf.c.
use nhi.Prelude.{
  ℕ, ◌<◌, ◌^◌, ◌≡◌, refl, Bool, ◌||◌, not, [], ◌∷◌, ◌++◌, none, All, All-append, ◌==◌, Option-cases,
  Bool-cases, inl, inr, arith, subst, get_elem?,
}
use nhi.Common.{
  Shell, Child, Event, killed, child_created, shell_exited, zero_shell, zero_child, shell_pid_of,
  child_pid_of, shells_max_entries, children_max_entries, nhid_hash, sigusr1, sigusr2,
}
use nhi.Kernel.Maps.{Maps}
use nhi.Kernel.Scan.{Removal, Search, hit, free, exhausted, search_loop, removal_loop, free_loop}
use nhi.Kernel.Scan.Every.{
  All-set, IsFound, IsMet, search_loop-IsFound, removal_loop-IsMet, All-swap_out,
  All-finish_removal,
}
use nhi.Wire.Laws.{IsSent}
use nhi.Kernel.Kill.{find_parent_indicator, parent_of, kill_something_info}
use nhi.Kernel.Fork.{add_new_child_pid, add_if_parent_in_children, fork_tracepoint}
use nhi.Kernel.Exit.{remove_child, finish_shell_removal, remove_shell, do_exit}

abbrev pub IsShell : Shell → Type 0
IsShell s = s.indicator < 256 ^ 8

abbrev pub IsChild : Child → Type 0
IsChild c = c.shell_pid < 256 ^ 4

pub record IsTyped (maps : Maps) : Type 0 where
  pub shells : All IsShell maps.shells
  pub children : All IsChild maps.children
  pub events : All IsSent maps.ring_buffer

sent :
    {maps : Maps} (t : IsTyped maps) (e : Event)
    → IsSent e
    → All IsSent (maps.ring_buffer ++ e ∷ [])
sent {maps} t e h = All-append IsSent maps.ring_buffer (e ∷ []) t.events (h, tt)

module _ {maps : Maps} (t : IsTyped maps) where
  parent_indicator_bound : (pid : ℕ) → find_parent_indicator pid maps.shells < 256 ^ 8
  unfolding find_parent_indicator
  parent_indicator_bound pid =
      go (search_loop shell_pid_of pid shells_max_entries 0 maps.shells)
        (search_loop-IsFound IsShell shell_pid_of pid maps.shells t.shells shells_max_entries 0)
    where
      go :
          (r : Search Shell)
          → IsFound IsShell r
          → (elim r [ hit i shell ↦ shell.indicator | free i ↦ 0 | exhausted ↦ 0 ]) < 256 ^ 8
      go (hit i s) h = h
      go (free i) h = omega arith
      go exhausted h = omega arith

  pub kill-IsTyped :
      (room : Bool) (sig pid shell_pid : ℕ)
      → sig < 256 ^ 4
      → shell_pid < 256 ^ 4
      → IsTyped (kill_something_info room sig pid shell_pid maps)
  unfolding kill_something_info
  kill-IsTyped room sig pid shell_pid a b =
      let removal = removal_loop child_pid_of shell_pid children_max_entries 0 none maps.children in
      let indicator = find_parent_indicator (parent_of removal) maps.shells in
      let left =
        All-finish_removal IsChild zero_child (omega arith) maps.children t.children removal in
      let bound = parent_indicator_bound (parent_of removal) in
      elim (Bool-cases (not (pid == nhid_hash))) [
        | inl e ↦ rw (kill_something_info, e) t
        | inr e ↦ elim (Bool-cases (sig == sigusr1 || sig == sigusr2)) [
          | inl e' ↦ elim (Bool-cases room) [
            | inl r ↦
                rw (kill_something_info, e, e', r)
                  (record {
                    shells = t.shells;
                    children = left;
                    events =
                        sent t
                          (killed (record {
                            shell_pid = shell_pid;
                            sig = sig;
                            parent_shell_indicator = indicator;
                          }))
                          (b, a, bound);
                  })
            | inr r ↦
                rw (kill_something_info, e, e', r)
                  (record { shells = t.shells; children = left; events = t.events })
          ]
          | inr e' ↦ elim (Bool-cases room) [
            | inl r ↦
                rw (kill_something_info, e, e', r)
                  (record {
                    shells = t.shells;
                    children = t.children;
                    events =
                        sent t
                          (killed (record {
                            shell_pid = shell_pid;
                            sig = sig;
                            parent_shell_indicator = 0;
                          }))
                          (b, a, omega arith);
                  })
            | inr r ↦
                rw (kill_something_info, e, e', r)
                  (record { shells = t.shells; children = t.children; events = t.events })
          ]
        ]
      ]

  add-IsTyped :
      (room : Bool) (child_pid shell : ℕ)
      → shell < 256 ^ 4
      → IsTyped (add_new_child_pid room child_pid shell maps)
  unfolding add_new_child_pid
  add-IsTyped room child_pid shell h =
      let entry : Child = record { child_pid = child_pid; shell_pid = shell } in
      elim (Option-cases (free_loop child_pid_of children_max_entries 0 maps.children)) [
        | inl e ↦ rw (add_new_child_pid, e) t
        | inr (i, e) ↦
            let children' = All-set IsChild maps.children i entry t.children h in
            elim (Bool-cases room) [
              | inl r ↦
                  rw (add_new_child_pid, e, r)
                    (record {
                      shells = t.shells;
                      children = children';
                      events = sent t (child_created shell) h;
                    })
              | inr r ↦
                  rw (add_new_child_pid, e, r)
                    (record { shells = t.shells; children = children'; events = t.events })
            ]
      ]

  add_if_parent-IsTyped :
      (room : Bool) (child_pid parent_pid : ℕ)
      → parent_pid < 256 ^ 4
      → (r : Search Child) → IsFound IsChild r
      → search_loop child_pid_of parent_pid children_max_entries 0 maps.children ≡ r
      → IsTyped (add_if_parent_in_children room child_pid parent_pid maps)
  unfolding add_if_parent_in_children
  add_if_parent-IsTyped room child_pid parent_pid h (hit i c) found e =
      rw (add_if_parent_in_children, e) (add-IsTyped room child_pid c.shell_pid found)
  add_if_parent-IsTyped room child_pid parent_pid h (free i) found e =
      rw (add_if_parent_in_children, e) t
  add_if_parent-IsTyped room child_pid parent_pid h exhausted found e =
      rw (add_if_parent_in_children, e) (add-IsTyped room child_pid parent_pid h)

  fork_cases :
      (room : Bool) (parent_pid child_pid : ℕ)
      → parent_pid < 256 ^ 4
      → (r : Search Shell)
      → search_loop shell_pid_of parent_pid shells_max_entries 0 maps.shells ≡ r
      → IsTyped (add_if_parent_in_children room child_pid parent_pid maps)
      → IsTyped (fork_tracepoint room parent_pid child_pid maps)
  unfolding fork_tracepoint
  fork_cases room parent_pid child_pid h (hit i s) e second =
      rw (fork_tracepoint, e) (add-IsTyped room child_pid parent_pid h)
  fork_cases room parent_pid child_pid h (free i) e second = rw (fork_tracepoint, e) second
  fork_cases room parent_pid child_pid h exhausted e second = rw (fork_tracepoint, e) second

  pub fork-IsTyped :
      (room : Bool) (parent_pid child_pid : ℕ)
      → parent_pid < 256 ^ 4
      → IsTyped (fork_tracepoint room parent_pid child_pid maps)
  fork-IsTyped room parent_pid child_pid h =
      let found =
        search_loop-IsFound IsChild child_pid_of parent_pid maps.children t.children
          children_max_entries 0 in
      fork_cases room parent_pid child_pid h _ refl
        (add_if_parent-IsTyped room child_pid parent_pid h _ found refl)

  remove_child-IsTyped : (pid : ℕ) → IsTyped (remove_child pid maps)
  unfolding remove_child
  remove_child-IsTyped pid = record {
    shells = t.shells;
    children = All-finish_removal IsChild zero_child (omega arith) maps.children t.children _;
    events = t.events;
  }

  finish_shell_removal-IsTyped :
      (room : Bool) (pid : ℕ) (r : Removal Shell)
      → IsMet IsShell r.found
      → IsTyped (finish_shell_removal room pid r maps)
  unfolding finish_shell_removal
  finish_shell_removal-IsTyped room pid r met = elim (Option-cases r.stop) [
    | inl e ↦ rw (finish_shell_removal, e) (remove_child-IsTyped pid)
    | inr (i, e) ↦ elim (Option-cases r.found) [
      | inl e' ↦ rw (finish_shell_removal, e, e') (remove_child-IsTyped pid)
      | inr ((j, s), e') ↦
          let bound : IsShell s = subst (IsMet IsShell) e' met in
          let shells' = All-swap_out IsShell zero_shell (omega arith) maps.shells t.shells j i in
          elim (Bool-cases room) [
            | inl b ↦
                rw (finish_shell_removal, e, e', b)
                  (record {
                    shells = shells';
                    children = t.children;
                    events = sent t (shell_exited (record { indicator = s.indicator })) bound;
                  })
            | inr b ↦
                rw (finish_shell_removal, e, e', b)
                  (record { shells = shells'; children = t.children; events = t.events })
          ]
    ]
  ]

  remove_shell-IsTyped : (room : Bool) (pid : ℕ) → IsTyped (remove_shell room pid maps)
  unfolding remove_shell
  remove_shell-IsTyped room pid =
      finish_shell_removal-IsTyped room pid
        (removal_loop shell_pid_of pid shells_max_entries 0 none maps.shells)
        (removal_loop-IsMet IsShell shell_pid_of pid maps.shells t.shells shells_max_entries 0 none
          tt)

  pub exit-IsTyped : (room : Bool) (pid : ℕ) → IsTyped (do_exit room pid maps)
  unfolding do_exit
  exit-IsTyped room pid = elim (Option-cases (get_elem? maps.shells 0)) [
    | inl e ↦ rw (do_exit, e) (remove_shell-IsTyped room pid)
    | inr (first, e) ↦ elim (Bool-cases (first.shell_pid == 0)) [
      | inl z ↦ rw (do_exit, e, z) t
      | inr z ↦ rw (do_exit, e, z) (remove_shell-IsTyped room pid)
    ]
  ]
