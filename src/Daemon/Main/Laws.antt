-- ===== src/Daemon/Main/Laws.antt =====
-- How the daemon starts, and how its loop goes on.
use nhi.Prelude.{
  ℕ, ◌≡◌, ◌≢◌, refl, ap, List, [], ◌∷◌, Option, none, some, true, ◌⊎◌, inl, inr, All, ◌==◌,
  Option-cases, Bool-cases, arith, codes, sym, subst,
}
use nhi.Daemon.Sqlite.{Sqlite, Message}
use nhi.Daemon.Main.{
  Opening, Libbpf, Started, minus_einval, program_names, attach_loop, open_and_setup_db,
  open_ring_buffer, load_programs, start, start_with,
}

-- The program of that name is in the object and is attached.
abbrev pub IsAttached : (lib : Libbpf) → lib.Object → List ℕ → Type 0
IsAttached lib object name =
    (program : lib.Program) × (lib.find_program_by_name object name ≡ some program)
    × (lib.attach program ≡ true)

attach_loop-IsAttached :
    (lib : Libbpf) (object : lib.Object) (names : List (List ℕ))
    → (attach_loop lib object names).1 ≡ none
    → All (IsAttached lib object) names
unfolding attach_loop
attach_loop-IsAttached lib object [] e = tt
attach_loop-IsAttached lib object (name ∷ names) e =
    elim (Option-cases (lib.find_program_by_name object name)) [
      | inl missing ↦ absurd (none_some (rw (attach_loop, missing) at e))
      | inr (program, found) ↦ elim (Bool-cases (lib.attach program)) [
        | inr refused ↦ absurd (none_some (rw (attach_loop, found, refused) at e))
        | inl attached ↦ (
          (program, found, attached),
          attach_loop-IsAttached lib object names (rw (attach_loop, found, attached) at e),
        )
      ]
    ]
  where
    none_some : {m : Message} → ◌≡◌ {A = Option Message} (some m) none → ⊥
    none_some h = cc

-- The daemon may go into its loop with it.
pub record IsReady (sq : Sqlite) (lib : Libbpf) (s : Started sq lib) : Type 0 where
  pub attached : All (IsAttached lib s.bpf_object) program_names
  pub has_shells : s.shells_fd ≢ minus_einval
  pub fd : lib.find_map_fd_by_name s.bpf_object (codes "shells") ≡ s.shells_fd
  pub reads :
      lib.ring_buffer_new (lib.find_map_fd_by_name s.bpf_object (codes "ring_buffer"))
      ≡ some s.ring_buffer

-- The two outcomes of the start: all is well and nothing is logged, or one line is.
abbrev pub Outcome : (sq : Sqlite) (lib : Libbpf) → Option (Started sq lib) × List Message → Type 0
Outcome sq lib r =
    ((s : Started sq lib) × (r ≡ (some s, [])) × IsReady sq lib s)
    ⊎ ((m : Message) × (r ≡ (none, m ∷ [])))

module _ (sq : Sqlite) (lib : Libbpf) where
  ring_buffer-Outcome :
      (db : sq.Db) (object : lib.Object)
      → All (IsAttached lib object) program_names
      → Outcome sq lib (open_ring_buffer sq lib db object)
  unfolding open_ring_buffer
  ring_buffer-Outcome db object attached =
      elim (Bool-cases (lib.find_map_fd_by_name object (codes "shells") == minus_einval)) [
        | inl e ↦ rw (open_ring_buffer, e) (inr (codes "Failed to find shells map", refl))
        | inr e ↦
            elim (Option-cases
              (lib.ring_buffer_new (lib.find_map_fd_by_name object (codes "ring_buffer")))) [
                | inl e' ↦
                    rw (open_ring_buffer, e, e') (inr (codes "Failed to create ring_buffer", refl))
                | inr (ring, e') ↦
                    rw (open_ring_buffer, e, e')
                      (inl (
                        record {
                          db = db;
                          bpf_object = object;
                          shells_fd = lib.find_map_fd_by_name object (codes "shells");
                          ring_buffer = ring;
                        },
                        refl,
                        record {
                          attached = attached;
                          has_shells = λ h. ground arith;
                          fd = refl;
                          reads = e';
                        },
                      ))
              ]
      ]

  load-Outcome : (db : sq.Db) → Outcome sq lib (load_programs sq lib db)
  unfolding load_programs
  load-Outcome db = elim (Option-cases (lib.open_file (codes "/etc/nhi/nhi.bpf.o"))) [
    | inl e ↦ rw (load_programs, e) (inr (codes "Failed to open bpf_object", refl))
    | inr (object, e) ↦ elim (Bool-cases (lib.load object)) [
      | inr l ↦ rw (load_programs, e, l) (inr (codes "Failed to load bpf_object", refl))
      | inl l ↦ elim (Option-cases (attach_loop lib object program_names).1) [
        | inr (m, a) ↦ rw (load_programs, e, l, a) (inr (m, refl))
        | inl a ↦
            rw (load_programs, e, l, a)
              (ring_buffer-Outcome db object (attach_loop-IsAttached lib object program_names a))
      ]
    ]
  ]

database_outcome :
    (sq : Sqlite) (opening : Opening sq)
    → ((db : sq.Db) × (open_and_setup_db sq opening ≡ (some db, [])))
      ⊎ ((m : Message) × (open_and_setup_db sq opening ≡ (none, m ∷ [])))
unfolding open_and_setup_db
database_outcome sq opening = elim (Option-cases (opening.open_db (codes "/var/nhi/db")).0) [
  | inr (m, e) ↦ inr (m, rw (open_and_setup_db, e) refl)
  | inl e ↦
      let db = (opening.open_db (codes "/var/nhi/db")).1 in
      elim (Option-cases (opening.wal_autocheckpoint db 0).0) [
        | inr (m, e') ↦ inr (m, rw (open_and_setup_db, e, e') refl)
        | inl e' ↦ inl ((opening.wal_autocheckpoint db 0).1, rw (open_and_setup_db, e, e') refl)
      ]
]

-- However the calls of SQLite and libbpf go: either `main` reaches its loop, with all five programs
-- attached, the descriptor of `shells` and the ring buffer, and has logged nothing, or it returns and
-- has logged exactly one line.
pub start-Outcome :
    (sq : Sqlite) (lib : Libbpf) (opening : Opening sq) → Outcome sq lib (start sq lib opening)
unfolding start
start-Outcome sq lib opening = elim (database_outcome sq opening) [
  | inl (db, e) ↦ subst (λ r. Outcome sq lib (start_with sq lib r)) (sym e) (load-Outcome sq lib db)
  | inr (m, e) ↦ inr (m, ap (start_with sq lib) e)
]
