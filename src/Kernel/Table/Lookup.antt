-- ===== src/Kernel/Table/Lookup.antt =====
-- What a search of a table finds: the entry of a process, or the first free entry.
use mathlib.Core.HLevel.{⊥_prop}
use mathlib.Core.List.{
  Nodup-cons, Mem, mem-cons, mem-cons_self, mem-cons_of_mem, not-mem-nil, perm_middle,
}
use mathlib.Core.List.Perm
use mathlib.Core.Logic.Or
use nhi.Prelude.{
  ℕ, suc, ◌+◌, ◌-◌, ◌<◌, ◌≡◌, ◌≢◌, sym, subst, List, [], ◌∷◌, ◌++◌, none, some, arith, length,
  length-append, get_elem?, get_elem?-append, At, At-prefix, All, All-append, All-append_left,
  All-append_right, append_snoc, ◌∙◌, replicate, set, set-append, append_assoc, ==→eq, Bool-cases,
  inl, inr, ◌⊎◌, eq→==, ap, ◌==◌, map, Perm, append-nil,
}
use nhi.Kernel.Scan.{hit, free, exhausted, search_loop, free_loop}
use nhi.Kernel.Scan.Laws.{
  IsUsed, IsOther, free_loop_free, free_loop_full, search_loop_hit, search_loop_free,
  search_loop_exhausted,
}
use nhi.Kernel.Table.{find_pid, IsTable}

module _ {ℓ} {A : Type ℓ} (pid_of : A → ℕ) (pid : ℕ) where
  pub find_pid-none : (xs : List A) → find_pid pid_of pid xs ≡ none → All (IsOther pid_of pid) xs
  unfolding find_pid
  find_pid-none [] e = tt
  find_pid-none (x ∷ xs) e = (ground (arith, eq→== (pid_of x) pid), find_pid-none xs (ground arith))

  pub All-not-mem : (xs : List A) → All (IsOther pid_of pid) xs → ¬ Mem pid (map pid_of xs)
  All-not-mem [] o h = not-mem-nil h
  All-not-mem (x ∷ xs) o h = Or.elim ⊥_prop (mem-cons.0 h) (λ e. o.0 (sym e)) (All-not-mem xs o.1)

  pub not-mem-All : (xs : List A) → ¬ Mem pid (map pid_of xs) → All (IsOther pid_of pid) xs
  not-mem-All [] h = tt
  not-mem-All (x ∷ xs) h = (
    λ e. h (subst (λ p. Mem p (map pid_of (x ∷ xs))) e mem-cons_self),
    not-mem-All xs (λ k. h (mem-cons_of_mem (pid_of x) k)),
  )

  -- The entry that is found, between the entries before and behind it.
  pub find_pid-some :
      (xs : List A) (x : A)
      → find_pid pid_of pid xs ≡ some x
      → (a b : List A) × (xs ≡ a ++ x ∷ b) × All (IsOther pid_of pid) a × (pid_of x ≡ pid)
  unfolding find_pid
  find_pid-some [] x e = cc
  find_pid-some (y ∷ xs) x e = elim (Bool-cases (pid_of y == pid)) [
    | inl m ↦ ([], xs, ground arith, tt, ground (arith, ==→eq (pid_of y) pid m))
    | inr m ↦
        let (a, b, p, o, q) = find_pid-some xs x (ground arith) in
        (y ∷ a, b, ap (λ l. y ∷ l) p, (ground arith, o), q)
  ]

module _ {ℓ} {A : Type ℓ} {pid_of : A → ℕ} {empty : A} {size : ℕ} {m xs : List A}
    (t : IsTable pid_of empty size m xs) where
  pub At-table : At m 0 xs
  At-table = subst (λ l. At l 0 xs) (sym t.layout) (At-prefix xs (replicate t.spare empty))

  pub spare_suc : length xs < size → t.spare ≡ suc (t.spare - 1)
  spare_suc h = omega (arith, t.total)

  pub layout_free : length xs < size → m ≡ xs ++ empty ∷ replicate (t.spare - 1) empty
  layout_free h = t.layout ∙ ap (λ (k : ℕ). xs ++ replicate k empty) (spare_suc h)

  -- The first free entry.
  pub get_elem?-free : length xs < size → get_elem? m (length xs) ≡ some empty
  get_elem?-free h = rw (layout_free h) (get_elem?-append xs empty (replicate (t.spare - 1) empty))

  pub free_loop-room :
      pid_of empty ≡ 0 → length xs < size → free_loop pid_of size 0 m ≡ some (length xs)
  free_loop-room z h =
      let e : 0 + length xs ≡ length xs = omega arith in
      rw (free_loop_free pid_of m xs 0 size At-table t.used empty h (rw e (get_elem?-free h)) z, e)

  pub free_loop-full : length xs ≡ size → free_loop pid_of size 0 m ≡ none
  free_loop-full h = free_loop_full pid_of m xs 0 size At-table t.used (sym h)

  module _ (pid : ℕ) where
    pub search-some :
        (x : A)
        → find_pid pid_of pid xs ≡ some x
        → (i : ℕ) × (search_loop pid_of pid size 0 m ≡ hit i x)
          × (i < length xs)
          × (get_elem? m i ≡ some x)
    search-some x e =
        let (a, b, p, o, q) = find_pid-some pid_of pid xs x e in
        let e0 : 0 + length a ≡ length a = omega arith in
        let long : length xs ≡ length a + suc (length b) = ap length p ∙ length-append a (x ∷ b) in
        let used : All (IsUsed pid_of) (a ++ x ∷ b) = subst (All (IsUsed pid_of)) p t.used in
        let whole : m ≡ a ++ (x ∷ (b ++ replicate t.spare empty)) =
          t.layout
          ∙ ap (λ l. l ++ replicate t.spare empty) p
          ∙ append_assoc a (x ∷ b) (replicate t.spare empty) in
        let at_x : get_elem? m (length a) ≡ some x =
          rw whole (get_elem?-append a x (b ++ replicate t.spare empty)) in
        (
          length a,
          rw (
            search_loop_hit pid_of pid m a 0 size
                (subst (λ l. At l 0 a) (sym whole)
                  (At-prefix a (x ∷ (b ++ replicate t.spare empty))))
                (All-append_left (IsUsed pid_of) a (x ∷ b) used) o x (omega (arith, t.total))
                (rw e0 at_x) (All-append_right (IsUsed pid_of) a (x ∷ b) used).0 q,
            e0,
          ),
          omega arith,
          at_x,
        )

    pub search-none_room :
        pid_of empty ≡ 0
        → find_pid pid_of pid xs ≡ none
        → length xs < size
        → search_loop pid_of pid size 0 m ≡ free (length xs)
    search-none_room z e h =
        let e0 : 0 + length xs ≡ length xs = omega arith in
        rw (
          search_loop_free pid_of pid m xs 0 size At-table t.used (find_pid-none pid_of pid xs e)
              empty h (rw e0 (get_elem?-free h)) z,
          e0,
        )

    pub search-none_full :
        find_pid pid_of pid xs ≡ none
        → length xs ≡ size
        → search_loop pid_of pid size 0 m ≡ exhausted
    search-none_full e h =
        search_loop_exhausted pid_of pid m xs 0 size At-table t.used (find_pid-none pid_of pid xs e)
          (sym h)

  -- An entry written to the first free place, for a process that has none.
  pub set-IsTable :
      (x : A)
      → length xs < size
      → pid_of x ≢ 0
      → find_pid pid_of (pid_of x) xs ≡ none
      → IsTable pid_of empty size (set m (length xs) x) (xs ++ x ∷ [])
  set-IsTable x h u e = record {
    spare = t.spare - 1;
    layout = rw (layout_free h) (
        set-append xs empty (replicate (t.spare - 1) empty) x
        ∙ append_snoc xs x (replicate (t.spare - 1) empty));
    total = omega (arith, t.total, length-append xs (x ∷ []));
    used = All-append (IsUsed pid_of) xs (x ∷ []) t.used (u, tt);
    distinct =
        Perm.nodup
          (Perm.map pid_of (
            Perm.symm
              (subst (λ l. Perm (xs ++ x ∷ []) (x ∷ l)) (append-nil xs) (perm_middle xs []))))
          (Nodup-cons.1
            (All-not-mem pid_of (pid_of x) xs (find_pid-none pid_of (pid_of x) xs e), t.distinct));
  }

module _ {ℓ} {A : Type ℓ} {pid_of : A → ℕ} {empty : A} {size : ℕ} {m xs : List A}
    (t : IsTable pid_of empty size m xs) where
  -- A table has a free entry, or it is full.
  pub room-cases : (length xs < size) ⊎ (length xs ≡ size)
  room-cases = omega (arith, t.total)

  -- A search for a process that has no entry ends at a free entry or with no round left.
  pub search-none :
      (pid : ℕ)
      → pid_of empty ≡ 0
      → find_pid pid_of pid xs ≡ none
      → ((search_loop pid_of pid size 0 m ≡ free (length xs)) × (length xs < size))
        ⊎ ((search_loop pid_of pid size 0 m ≡ exhausted) × (length xs ≡ size))
  search-none pid z e = elim room-cases [
    | inl h ↦ inl (search-none_room t pid z e h, h)
    | inr h ↦ inr (search-none_full t pid e h, h)
  ]
