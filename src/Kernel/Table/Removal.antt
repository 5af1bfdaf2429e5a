-- ===== src/Kernel/Table/Removal.antt =====
-- What a removal from a table leaves.
use mathlib.Core.HLevel.{⊥_prop}
use mathlib.Core.List.{
  Nodup-cons, Nodup-append, Mem, mem-cons, mem-cons_self, mem-cons_of_mem, not-mem-nil, perm_middle,
  map-append,
}
use mathlib.Core.List.Perm
use mathlib.Core.Logic.Or
use mathlib.Core.Option
use nhi.Prelude.{
  ℕ, suc, ◌+◌, ◌-◌, ◌<◌, ◌≡◌, ◌≢◌, refl, sym, subst, List, [], ◌∷◌, ◌++◌, none, some, arith, length,
  length-append, get_elem?, get_elem?-append, At, At-prefix, All, All-append, All-append_left,
  All-append_right, append_snoc, ◌∙◌, replicate, append_assoc, Option-cases, inl, inr, ne→==, eq→==,
  ap, map, Nodup, Perm, At-middle,
}
use nhi.Kernel.Scan.{removal_loop, swap_out, finish_removal}
use nhi.Kernel.Scan.Laws.{IsUsed, IsOther, removal_loop_miss, removal_loop_hit, removal_loop_full}
use nhi.Kernel.Table.{find_pid, others, IsTable}
use nhi.Kernel.Table.Lookup.{
  find_pid-none, find_pid-some, not-mem-All, At-table, spare_suc, get_elem?-free, layout_free,
}
use nhi.Kernel.Table.Swap.{swap_out-perm}

module _ {ℓ} {A : Type ℓ} (pid_of : A → ℕ) where
  used-mem : (xs : List A) (x : A) → All (IsUsed pid_of) xs → Mem x xs → pid_of x ≢ 0
  used-mem [] x used h e = not-mem-nil h
  used-mem (y ∷ xs) x used h e =
      Or.elim ⊥_prop (mem-cons.0 h) (λ p. used.0 (sym (ap pid_of p) ∙ e))
        (λ k. used-mem xs x used.1 k e)

  mem-IsUsed : (xs : List A) → ((x : A) → Mem x xs → pid_of x ≢ 0) → All (IsUsed pid_of) xs
  mem-IsUsed [] h = tt
  mem-IsUsed (x ∷ xs) h = (h x mem-cons_self, mem-IsUsed xs (λ y k. h y (mem-cons_of_mem x k)))

  IsUsed-perm : (xs ys : List A) → Perm xs ys → All (IsUsed pid_of) xs → All (IsUsed pid_of) ys
  IsUsed-perm xs ys p used = mem-IsUsed ys (λ x h. used-mem xs x used ((Perm.mem_iff p).1 h))

  pub others-Other :
      (pid : ℕ) (xs : List A) → All (IsOther pid_of pid) xs → others pid_of pid xs ≡ xs
  unfolding others
  others-Other pid [] o = refl
  others-Other pid (x ∷ xs) o =
      rw (ne→== (pid_of x) pid o.0) (ap (λ l. x ∷ l) (others-Other pid xs o.1))

  others-middle :
      (pid : ℕ) (a : List A) (x : A) (b : List A)
      → All (IsOther pid_of pid) a
      → All (IsOther pid_of pid) b
      → pid_of x ≡ pid
      → others pid_of pid (a ++ x ∷ b) ≡ a ++ b
  unfolding others
  others-middle pid [] x b oa ob e = rw (eq→== (pid_of x) pid e) (others-Other pid b ob)
  others-middle pid (y ∷ a) x b oa ob e =
      rw (ne→== (pid_of y) pid oa.0) (ap (λ l. y ∷ l) (others-middle pid a x b oa.1 ob e))

  -- With distinct pids nobody behind an entry has its pid.
  distinct-behind :
      (a : List A) (x : A) (b : List A)
      → Nodup (map pid_of (a ++ x ∷ b))
      → All (IsOther pid_of (pid_of x)) b
  distinct-behind a x b d =
      not-mem-All pid_of (pid_of x) b
        (Nodup-cons.0 (Nodup-append.0 (subst Nodup (map-append pid_of a (x ∷ b)) d)).1).0

  distinct-without :
      (a : List A) (x : A) (b : List A)
      → Nodup (map pid_of (a ++ x ∷ b))
      → Nodup (map pid_of (a ++ b))
  distinct-without a x b d = (Nodup-cons.0 (Perm.nodup (Perm.map pid_of (perm_middle a b)) d)).1

module _ {ℓ} {A : Type ℓ} {pid_of : A → ℕ} {empty : A} {size : ℕ} {m xs : List A}
    (t : IsTable pid_of empty size m xs) (pid : ℕ) (z : pid_of empty ≡ 0) (nz : pid ≢ 0) where
  pub removal-full : length xs ≡ size → (removal_loop pid_of pid size 0 none m).stop ≡ none
  removal-full h = removal_loop_full pid_of pid m xs 0 size (At-table t) t.used none (sym h)

  module _ (room : length xs < size) where
    pub removal-none :
        find_pid pid_of pid xs ≡ none
        → removal_loop pid_of pid size 0 none m ≡ record { found = none; stop = some (length xs) }
    removal-none e =
        let e0 : 0 + length xs ≡ length xs = omega arith in
        rw (
          removal_loop_miss pid_of pid m xs 0 size (At-table t) t.used empty none
              (find_pid-none pid_of pid xs e) room (rw e0 (get_elem?-free t room)) z nz,
          e0,
        )

    -- The removal of `x`, which stands between `a` and `b`.
    module _ (a : List A) (x : A) (b : List A) (p : xs ≡ a ++ x ∷ b) (q : pid_of x ≡ pid) where
      whole : m ≡ a ++ (x ∷ (b ++ empty ∷ replicate (t.spare - 1) empty))
      whole =
          layout_free t room
          ∙ ap (λ l. l ++ empty ∷ replicate (t.spare - 1) empty) p
          ∙ append_assoc a (x ∷ b) (empty ∷ replicate (t.spare - 1) empty)

      distinct_split : Nodup (map pid_of (a ++ x ∷ b))
      distinct_split = subst (λ l. Nodup (map pid_of l)) p t.distinct

      IsUsed-split : All (IsUsed pid_of) (a ++ x ∷ b)
      IsUsed-split = subst (All (IsUsed pid_of)) p t.used

      behind : All (IsOther pid_of pid) b
      behind = subst (λ k. All (IsOther pid_of k) b) q (distinct-behind pid_of a x b distinct_split)

      long : length xs ≡ length a + 1 + length b
      long = omega (arith, ap length p, length-append a (x ∷ b))

      removal_loop-split :
          removal_loop pid_of pid size 0 none m
          ≡ record { found = some (length a, x); stop = some (length xs) }
      removal_loop-split =
          let rest = replicate (t.spare - 1) empty in
          let e1 : length a + 1 ≡ length (a ++ x ∷ []) = omega (arith, length-append a (x ∷ [])) in
          let e2 : length a + 1 + length b ≡ length (a ++ x ∷ b) =
            omega (arith, length-append a (x ∷ b)) in
          rw (whole, long)
            (removal_loop_hit pid_of pid (a ++ (x ∷ (b ++ empty ∷ rest))) a x b size empty
              (At-prefix a (x ∷ (b ++ empty ∷ rest))) (get_elem?-append a x (b ++ empty ∷ rest))
              (subst (λ l. At l (length a + 1) b) (sym (append_snoc a x (b ++ empty ∷ rest)))
                (At-middle (a ++ x ∷ []) b (empty ∷ rest) (length a + 1) e1))
              (subst (λ l. get_elem? l (length a + 1 + length b) ≡ some empty)
                (append_assoc a (x ∷ b) (empty ∷ rest))
                (rw e2 (get_elem?-append (a ++ x ∷ b) empty rest)))
              (All-append_left (IsUsed pid_of) a (x ∷ b) IsUsed-split)
              (All-append_right (IsUsed pid_of) a (x ∷ b) IsUsed-split).1 behind q z nz
              (omega (arith, long)))

      swap_out-split :
          All (IsOther pid_of pid) a
          → (ys : List A) × IsTable pid_of empty size (swap_out empty m (length a) (length xs)) ys
            × Perm (others pid_of pid xs) ys
      swap_out-split o =
          let (ys, s, perm, len) =
            swap_out-perm empty x a b (empty ∷ replicate (t.spare - 1) empty) (length xs) long in
          (
            ys,
            record {
              spare = suc t.spare;
              layout =
                  ap (λ l. swap_out empty l (length a) (length xs)) whole
                  ∙ s
                  ∙ ap (λ k. ys ++ empty ∷ replicate k empty) (sym (spare_suc t room));
              total = omega (arith, t.total, long);
              used = IsUsed-perm pid_of (a ++ b) ys perm (
                  All-append (IsUsed pid_of) a b
                    (All-append_left (IsUsed pid_of) a (x ∷ b) IsUsed-split)
                    (All-append_right (IsUsed pid_of) a (x ∷ b) IsUsed-split).1);
              distinct =
                  Perm.nodup (Perm.map pid_of perm) (distinct-without pid_of a x b distinct_split);
            },
            subst (λ l. Perm l ys)
                (sym (ap (others pid_of pid) p ∙ others-middle pid_of pid a x b o behind q)) perm,
          )

    pub removal-some :
        (x : A)
        → find_pid pid_of pid xs ≡ some x
        → (p : ℕ) × (removal_loop pid_of pid size 0 none m
            ≡ record { found = some (p, x); stop = some (length xs) })
          × ((ys : List A) × IsTable pid_of empty size (swap_out empty m p (length xs)) ys
              × Perm (others pid_of pid xs) ys)
    removal-some x e =
        let (a, b, p, o, q) = find_pid-some pid_of pid xs x e in
        (length a, removal_loop-split a x b p q, swap_out-split a x b p q o)

    -- A removal leaves the entries of all other processes, in some order, and `found` is the entry
    -- that the process had.
    pub finish_removal-IsTable :
        (Option.map (λ (p : ℕ × A). p.1) (removal_loop pid_of pid size 0 none m).found
          ≡ find_pid pid_of pid xs)
        × ((ys : List A) × IsTable pid_of empty size
              (finish_removal empty (removal_loop pid_of pid size 0 none m) m)
              ys
            × Perm (others pid_of pid xs) ys)
    unfolding finish_removal
    finish_removal-IsTable = elim (Option-cases (find_pid pid_of pid xs)) [
      | inl e ↦ (
        rw (removal-none e, e),
        (
          xs,
          rw (removal-none e) t,
          rw (others-Other pid_of pid xs (find_pid-none pid_of pid xs e)) (Perm.refl xs),
        ),
      )
      | inr (x, e) ↦
          let (p, l, (ys, t', perm)) = removal-some x e in (rw (l, e), (ys, rw l t', perm))
    ]
