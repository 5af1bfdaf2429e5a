-- ===== src/Kernel/Table/Swap.antt =====
-- What `swap_out` does to the entries of an array map.
use mathlib.Core.List.{perm_middle}
use mathlib.Core.List.Perm
use nhi.Prelude.{
  ℕ, suc, ◌+◌, ◌≡◌, refl, sym, subst, List, [], ◌∷◌, ◌++◌, some, arith, ◌⊎◌, length, length-append,
  get_elem?, get_elem?-append, ◌∙◌, set, set-append, append_assoc, inl, inr, ap, Perm, append-nil,
}
use nhi.Kernel.Scan.{swap_out}

module _ {ℓ} {A : Type ℓ} where
  snoc-cases : (xs : List A) → (xs ≡ []) ⊎ ((ys : List A) × (y : A) × (xs ≡ ys ++ y ∷ []))
  snoc-cases [] = inl refl
  snoc-cases (x ∷ xs) = elim (snoc-cases xs) [
    | inl e ↦ inr ([], x, ap (λ l. x ∷ l) e)
    | inr (ys, y, e) ↦ inr (x ∷ ys, y, ap (λ l. x ∷ l) e)
  ]

  swap_out_last :
      (empty x : A) (a rest : List A)
      → swap_out empty (a ++ x ∷ rest) (length a) (suc (length a)) ≡ a ++ empty ∷ rest
  unfolding swap_out
  swap_out_last empty x a rest =
      rw (get_elem?-append a x rest, swap_out)
        (ap (λ t. set t (length a) empty) (set-append a x rest x) ∙ set-append a x rest empty)

  swap_out_inner :
      (empty x l : A) (a b rest : List A) (n : ℕ)
      → n ≡ length a + suc (length b)
      → swap_out empty (a ++ x ∷ (b ++ l ∷ rest)) (length a) (suc n) ≡ (a ++ l ∷ b) ++ empty ∷ rest
  unfolding swap_out
  swap_out_inner empty x l a b rest n e =
      let e_x : n ≡ length (a ++ x ∷ b) = e ∙ sym (length-append a (x ∷ b)) in
      let e_l : n ≡ length (a ++ l ∷ b) = e ∙ sym (length-append a (l ∷ b)) in
      let at_l : get_elem? (a ++ x ∷ (b ++ l ∷ rest)) n ≡ some l =
        subst (λ t. get_elem? t n ≡ some l) (append_assoc a (x ∷ b) (l ∷ rest))
          (rw e_x (get_elem?-append (a ++ x ∷ b) l rest)) in
      rw (at_l, swap_out)
        (ap (λ t. set t n empty) (set-append a x (b ++ l ∷ rest) l)
          ∙ ap (λ t. set t n empty) (sym (append_assoc a (l ∷ b) (l ∷ rest)))
          ∙ ap (λ k. set ((a ++ l ∷ b) ++ l ∷ rest) k empty) e_l
          ∙ set-append (a ++ l ∷ b) l rest empty)

  -- The last entry takes the place of the one that is removed.
  pub swap_out-perm :
      (empty x : A) (a b rest : List A) (n : ℕ)
      → n ≡ length a + 1 + length b
      → (ys : List A) × (swap_out empty (a ++ (x ∷ (b ++ rest))) (length a) n ≡ ys ++ empty ∷ rest)
        × Perm (a ++ b) ys
        × (length ys ≡ length a + length b)
  swap_out-perm empty x a b rest n h = elim (snoc-cases b) [
    | inl e ↦
        let e1 : n ≡ suc (length a) = omega (arith, ap length e) in
        (
          a,
          rw (e, e1) (swap_out_last empty x a rest),
          rw (e, append-nil a) (Perm.refl a),
          rw e (omega arith),
        )
    | inr (b', l, e) ↦
        let e1 : n ≡ suc (length a + suc (length b')) =
          omega (arith, ap length e, length-append b' (l ∷ [])) in
        (
          a ++ l ∷ b',
          rw (e, e1, append_assoc b' (l ∷ []) rest)
              (swap_out_inner empty x l a b' rest (length a + suc (length b')) refl),
          rw e (
              Perm.append_left a (
                subst (Perm (b' ++ l ∷ [])) (ap (λ t. l ∷ t) (append-nil b')) (perm_middle b' []))),
          omega (arith, ap length e, length-append a (l ∷ b'), length-append b' (l ∷ [])),
        )
  ]
