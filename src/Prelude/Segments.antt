-- ===== src/Prelude/Segments.antt =====
-- Which elements stand in a list from an index on.
use Prim.Native.Nat.{ℕ, ◌+◌}
use mathlib.Core.Path.{◌≡◌, refl, sym, subst}
use mathlib.Core.List.{List, [], ◌∷◌, ◌++◌}
use mathlib.Core.Option.{some}
use native.Mathlib.Omega.{arith}
use nhi.Prelude.Lists.{length, get_elem?, length-append, get_elem?-append, append_snoc}

module _ {ℓ} {A : Type ℓ} where
  abbrev pub At : List A → ℕ → List A → Type ℓ
  At map i [] = Unit
  At map i (x ∷ xs) = (get_elem? map i ≡ some x) × At map (i + 1) xs

  pub At-middle : (pre xs rest : List A) (i : ℕ) → i ≡ length pre → At (pre ++ (xs ++ rest)) i xs
  At-middle pre [] rest i e = tt
  At-middle pre (x ∷ xs) rest i e = (
    rw e (get_elem?-append pre x (xs ++ rest)),
    subst (λ l. At l (i + 1) xs) (sym (append_snoc pre x (xs ++ rest)))
        (At-middle (pre ++ x ∷ []) xs rest (i + 1) (omega (arith, length-append pre (x ∷ [])))),
  )

  -- A list begins with each of its prefixes.
  pub At-prefix : (xs rest : List A) → At (xs ++ rest) 0 xs
  At-prefix xs rest = At-middle [] xs rest 0 refl
