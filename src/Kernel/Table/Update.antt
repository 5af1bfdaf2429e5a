-- ===== src/Kernel/Table/Update.antt =====
-- An entry of a table that is changed in place, and a removal from a table that may be full.
use nhi.Prelude.{
  ℕ, zero, suc, ◌<◌, ◌≡◌, ◌≢◌, refl, sym, ap, subst, ◌∙◌, List, [], ◌∷◌, ◌++◌, none, some, arith,
  length, length-set, get_elem?, replicate, set, All, map, Nodup, inl, inr,
}
use nhi.Kernel.Scan.{removal_loop, finish_removal}
use nhi.Kernel.Scan.Laws.{IsUsed}
use nhi.Kernel.Table.{IsTable}
use nhi.Kernel.Table.Lookup.{room-cases}
use nhi.Kernel.Table.Removal.{removal-full, finish_removal-IsTable}

module _ {ℓ} {A : Type ℓ} where
  set-append_left :
      (xs ys : List A) (i : ℕ) (v : A) → i < length xs → set (xs ++ ys) i v ≡ set xs i v ++ ys
  set-append_left [] ys i v h = absurd (omega arith)
  set-append_left (x ∷ xs) ys zero v h = refl
  set-append_left (x ∷ xs) ys (suc i) v h =
      ap (λ l. x ∷ l) (set-append_left xs ys i v (omega arith))

  get_elem?-append_left :
      (xs ys : List A) (i : ℕ) → i < length xs → get_elem? (xs ++ ys) i ≡ get_elem? xs i
  get_elem?-append_left [] ys i h = absurd (omega arith)
  get_elem?-append_left (x ∷ xs) ys zero h = refl
  get_elem?-append_left (x ∷ xs) ys (suc i) h = get_elem?-append_left xs ys i (omega arith)

  module _ (pid_of : A → ℕ) where
    map-set :
        (xs : List A) (i : ℕ) (x v : A)
        → get_elem? xs i ≡ some x
        → pid_of v ≡ pid_of x
        → map pid_of (set xs i v) ≡ map pid_of xs
    map-set [] i x v e same = refl
    map-set (y ∷ xs) zero x v e same = ap (λ p. p ∷ map pid_of xs) (ground arith)
    map-set (y ∷ xs) (suc i) x v e same = ap (λ l. pid_of y ∷ l) (map-set xs i x v e same)

    All-set :
        (xs : List A) (i : ℕ) (v : A)
        → All (IsUsed pid_of) xs
        → pid_of v ≢ 0
        → All (IsUsed pid_of) (set xs i v)
    All-set [] i v used nz = tt
    All-set (y ∷ xs) zero v used nz = (nz, used.1)
    All-set (y ∷ xs) (suc i) v used nz = (used.0, All-set xs i v used.1 nz)

    used_at :
        (xs : List A) (i : ℕ) (x : A)
        → All (IsUsed pid_of) xs
        → get_elem? xs i ≡ some x
        → pid_of x ≢ 0
    used_at [] i x used e = cc
    used_at (y ∷ xs) zero x used e = λ z. used.0 (ground arith)
    used_at (y ∷ xs) (suc i) x used e = used_at xs i x used.1 e

module _ {ℓ} {A : Type ℓ} {pid_of : A → ℕ} {empty : A} {size : ℕ} {m xs : List A}
    (t : IsTable pid_of empty size m xs) where
  -- A new version of an entry, for the same process.
  pub change-IsTable :
      (i : ℕ) (x v : A)
      → i < length xs
      → get_elem? m i ≡ some x
      → pid_of v ≡ pid_of x
      → IsTable pid_of empty size (set m i v) (set xs i v)
  change-IsTable i x v h e same =
      let rest = replicate t.spare empty in
      let at : get_elem? xs i ≡ some x =
        sym (get_elem?-append_left xs rest i h) ∙ ap (λ l. get_elem? l i) (sym t.layout) ∙ e in
      record {
        spare = t.spare;
        layout = ap (λ l. set l i v) t.layout ∙ set-append_left xs rest i v h;
        total = omega (arith, length-set xs i v, t.total);
        used = All-set pid_of xs i v t.used (λ z. used_at pid_of xs i x t.used at (sym same ∙ z));
        distinct = subst Nodup (sym (map-set pid_of xs i x v at same)) t.distinct;
      }

  -- A removal leaves a table, also where it finds the table full and does nothing.
  pub removal-IsTable :
      (pid : ℕ)
      → pid_of empty ≡ 0
      → pid ≢ 0
      → (ys : List A) × IsTable pid_of empty size
          (finish_removal empty (removal_loop pid_of pid size 0 none m) m)
          ys
  unfolding finish_removal
  removal-IsTable pid z nz = elim (room-cases t) [
    | inl room ↦ let (found, (ys, t', perm)) = finish_removal-IsTable t pid z nz room in (ys, t')
    | inr full ↦ (xs, rw (finish_removal, removal-full t pid z nz full) t)
  ]
