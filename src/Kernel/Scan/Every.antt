-- ===== src/Kernel/Scan/Every.antt =====
-- What holds of every entry of an array map holds of what the loops of daemon/src/nhi.bpf.c find in it,
-- and of every entry that is left behind a removal.
use mathlib.Core.Option.{some-injective}
use nhi.Prelude.{
  ℕ, zero, suc, ◌+◌, ◌≡◌, List, [], ◌∷◌, Option, none, some, ◌==◌, get_elem?, set, All,
  Option-cases, Bool-cases, inl, inr, subst,
}
use nhi.Kernel.Scan.{
  Removal, Search, hit, free, exhausted, removal_loop, search_loop, swap_out, finish_removal,
}

module _ {ℓ κ} {A : Type ℓ} (P : A → Type κ) where
  pub All-set : (m : List A) (i : ℕ) (v : A) → All P m → P v → All P (set m i v)
  All-set [] i v all p = tt
  All-set (x ∷ m) zero v all p = (p, all.1)
  All-set (x ∷ m) (suc i) v all p = (all.0, All-set m i v all.1 p)

  pub All-get : (m : List A) (i : ℕ) (x : A) → All P m → get_elem? m i ≡ some x → P x
  All-get [] i x all e = cc
  All-get (y ∷ m) zero x all e = subst P (some-injective _ _ e) all.0
  All-get (y ∷ m) (suc i) x all e = All-get m i x all.1 e

  -- Of the entry that a search ends at.
  abbrev pub IsFound : Search A → Type κ
  IsFound (hit i x) = P x
  IsFound (free i) = Unit
  IsFound exhausted = Unit

  -- Of the entry that a removal has met.
  abbrev pub IsMet : Option (ℕ × A) → Type κ
  IsMet none = Unit
  IsMet (some (i, x)) = P x

  module _ (pid_of : A → ℕ) (pid : ℕ) (m : List A) (all : All P m) where
    pub search_loop-IsFound : (rounds i : ℕ) → IsFound (search_loop pid_of pid rounds i m)
    unfolding search_loop
    search_loop-IsFound zero i = tt
    search_loop-IsFound (suc rounds) i =
        let on = search_loop-IsFound rounds (i + 1) in
        elim (Option-cases (get_elem? m i)) [
          | inl e ↦ rw (search_loop, e) on
          | inr (x, e) ↦ elim (Bool-cases (pid_of x == 0)) [
            | inl z ↦ rw (search_loop, e, z) tt
            | inr nz ↦ elim (Bool-cases (pid_of x == pid)) [
              | inl same ↦ rw (search_loop, e, nz, same) (All-get m i x all e)
              | inr other ↦ rw (search_loop, e, nz, other) on
            ]
          ]
        ]

    pub removal_loop-IsMet :
        (rounds i : ℕ) (found : Option (ℕ × A))
        → IsMet found
        → IsMet (removal_loop pid_of pid rounds i found m).found
    unfolding removal_loop
    removal_loop-IsMet zero i found p = p
    removal_loop-IsMet (suc rounds) i found p = elim (Option-cases (get_elem? m i)) [
      | inl e ↦ rw (removal_loop, e) (removal_loop-IsMet rounds (i + 1) found p)
      | inr (x, e) ↦ elim (Bool-cases (pid_of x == pid)) [
        | inl same ↦
            rw (removal_loop, e, same)
              (removal_loop-IsMet rounds (i + 1) (some (i, x)) (All-get m i x all e))
        | inr other ↦ elim (Bool-cases (pid_of x == 0)) [
          | inl z ↦ rw (removal_loop, e, other, z) p
          | inr nz ↦ rw (removal_loop, e, other, nz) (removal_loop-IsMet rounds (i + 1) found p)
        ]
      ]
    ]

  module _ (empty : A) (p : P empty) (m : List A) (all : All P m) where
    pub All-swap_out : (pid_index i : ℕ) → All P (swap_out empty m pid_index i)
    unfolding swap_out
    All-swap_out pid_index zero = all
    All-swap_out pid_index (suc i) = elim (Option-cases (get_elem? m i)) [
      | inl e ↦ rw (swap_out, e) (All-set m i empty all p)
      | inr (last, e) ↦
          rw (swap_out, e)
            (All-set (set m pid_index last) i empty
              (All-set m pid_index last all (All-get m i last all e)) p)
    ]

    pub All-finish_removal : (r : Removal A) → All P (finish_removal empty r m)
    unfolding finish_removal
    All-finish_removal r = elim (Option-cases r.stop) [
      | inl e ↦ rw (finish_removal, e) all
      | inr (i, e) ↦ elim (Option-cases r.found) [
        | inl e' ↦ rw (finish_removal, e, e') all
        | inr ((j, x), e') ↦ rw (finish_removal, e, e') (All-swap_out j i)
      ]
    ]
