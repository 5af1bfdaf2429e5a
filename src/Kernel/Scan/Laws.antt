-- ===== src/Kernel/Scan/Laws.antt =====
-- What the loops over an array map find, from the entries that stand in it.
use nhi.Prelude.{
  ℕ, zero, suc, ◌+◌, ◌-◌, ◌<◌, ◌≡◌, ◌≢◌, refl, List, [], ◌∷◌, Option, none, some, arith, length,
  get_elem?, At, All, ne→==, eq→==, inl, inr, Bool-cases, ◌==◌,
}
use nhi.Kernel.Scan.{hit, free, exhausted, removal_loop, search_loop, free_loop}

module _ {ℓ} {A : Type ℓ} (pid_of : A → ℕ) where
  -- An entry that is taken.
  abbrev pub IsUsed : A → Type 0
  IsUsed e = pid_of e ≢ 0

  -- An entry of a process other than `pid`.
  abbrev pub IsOther : ℕ → A → Type 0
  IsOther pid e = pid_of e ≢ pid

  free_skip :
      (map xs : List A) (i n r : ℕ)
      → At map i xs
      → All IsUsed xs
      → n ≡ length xs + r
      → free_loop pid_of n i map ≡ free_loop pid_of r (i + length xs) map
  free_skip map [] i n r at used e =
      let e' : n ≡ r = omega arith in let e0 : i + 0 ≡ i = omega arith in rw (e', e0)
  free_skip map (x ∷ xs) i zero r at used e = absurd (omega arith)
  free_skip map (x ∷ xs) i (suc n) r at used e =
      let e' : i + suc (length xs) ≡ i + 1 + length xs = omega arith in
      rw (e', ← free_skip map xs (i + 1) n r at.1 used.1 (omega arith))
        (unfold free_loop in ground (arith, at.0, ne→== (pid_of x) 0 used.0))

  module _ (map xs : List A) (i n : ℕ) (at : At map i xs) (used : All IsUsed xs) where
    pub free_loop_free :
        (x : A)
        → length xs < n
        → get_elem? map (i + length xs) ≡ some x
        → pid_of x ≡ 0
        → free_loop pid_of n i map ≡ some (i + length xs)
    free_loop_free x h g z =
        rw (free_skip map xs i n (suc (n - length xs - 1)) at used (omega arith))
          (unfold free_loop in ground (arith, g, eq→== (pid_of x) 0 z))

    pub free_loop_full : n ≡ length xs → free_loop pid_of n i map ≡ none
    free_loop_full h = rw (free_skip map xs i n 0 at used (omega arith)) (unfold free_loop in refl)

  search_skip :
      (pid : ℕ) (map xs : List A) (i n r : ℕ)
      → At map i xs
      → All IsUsed xs
      → All (IsOther pid) xs
      → n ≡ length xs + r
      → search_loop pid_of pid n i map ≡ search_loop pid_of pid r (i + length xs) map
  search_skip pid map [] i n r at used others e =
      let e' : n ≡ r = omega arith in let e0 : i + 0 ≡ i = omega arith in rw (e', e0)
  search_skip pid map (x ∷ xs) i zero r at used others e = absurd (omega arith)
  search_skip pid map (x ∷ xs) i (suc n) r at used others e =
      let e' : i + suc (length xs) ≡ i + 1 + length xs = omega arith in
      rw (e', ← search_skip pid map xs (i + 1) n r at.1 used.1 others.1 (omega arith))
        (unfold search_loop in
          ground (arith, at.0, ne→== (pid_of x) 0 used.0, ne→== (pid_of x) pid others.0))

  module _ (pid : ℕ) (map xs : List A) (i n : ℕ) (at : At map i xs) (used : All IsUsed xs)
      (others : All (IsOther pid) xs) where
    pub search_loop_hit :
        (x : A)
        → length xs < n
        → get_elem? map (i + length xs) ≡ some x
        → pid_of x ≢ 0
        → pid_of x ≡ pid
        → search_loop pid_of pid n i map ≡ hit (i + length xs) x
    search_loop_hit x h g u m =
        rw (search_skip pid map xs i n (suc (n - length xs - 1)) at used others (omega arith))
          (unfold search_loop in ground (arith, g, ne→== (pid_of x) 0 u, eq→== (pid_of x) pid m))

    pub search_loop_free :
        (x : A)
        → length xs < n
        → get_elem? map (i + length xs) ≡ some x
        → pid_of x ≡ 0
        → search_loop pid_of pid n i map ≡ free (i + length xs)
    search_loop_free x h g z =
        rw (search_skip pid map xs i n (suc (n - length xs - 1)) at used others (omega arith))
          (unfold search_loop in ground (arith, g, eq→== (pid_of x) 0 z))

    pub search_loop_exhausted : n ≡ length xs → search_loop pid_of pid n i map ≡ exhausted
    search_loop_exhausted h =
        rw (search_skip pid map xs i n 0 at used others (omega arith)) (unfold search_loop in refl)

  removal_skip :
      (pid : ℕ) (map xs : List A) (i n r : ℕ) (found : Option (ℕ × A))
      → At map i xs
      → All IsUsed xs
      → All (IsOther pid) xs
      → n ≡ length xs + r
      → removal_loop pid_of pid n i found map ≡ removal_loop pid_of pid r (i + length xs) found map
  removal_skip pid map [] i n r found at used others e =
      let e' : n ≡ r = omega arith in let e0 : i + 0 ≡ i = omega arith in rw (e', e0)
  removal_skip pid map (x ∷ xs) i zero r found at used others e = absurd (omega arith)
  removal_skip pid map (x ∷ xs) i (suc n) r found at used others e =
      let e' : i + suc (length xs) ≡ i + 1 + length xs = omega arith in
      rw (e', ← removal_skip pid map xs (i + 1) n r found at.1 used.1 others.1 (omega arith))
        (unfold removal_loop in
          ground (arith, at.0, ne→== (pid_of x) 0 used.0, ne→== (pid_of x) pid others.0))

  -- Over taken entries the loop goes on, whichever of them match.
  removal_pass :
      (pid : ℕ) (map xs : List A) (i n r : ℕ) (found : Option (ℕ × A))
      → At map i xs
      → All IsUsed xs
      → n ≡ length xs + r
      → (found' : Option (ℕ × A)) × (removal_loop pid_of pid n i found map
          ≡ removal_loop pid_of pid r (i + length xs) found' map)
  removal_pass pid map [] i n r found at used e =
      let e' : n ≡ r = omega arith in let e0 : i + 0 ≡ i = omega arith in (found, rw (e', e0))
  removal_pass pid map (x ∷ xs) i zero r found at used e = absurd (omega arith)
  removal_pass pid map (x ∷ xs) i (suc n) r found at used e =
      let e' : i + suc (length xs) ≡ i + 1 + length xs = omega arith in
      elim (Bool-cases (pid_of x == pid)) [
        | inl m ↦
            let (f, p) =
              removal_pass pid map xs (i + 1) n r (some (i, x)) at.1 used.1 (omega arith) in
            (f, rw (e', ← p) (unfold removal_loop in ground (arith, at.0)))
        | inr m ↦
            let (f, p) = removal_pass pid map xs (i + 1) n r found at.1 used.1 (omega arith) in
            (
              f,
              rw (e', ← p) (unfold removal_loop in ground (arith, at.0, ne→== (pid_of x) 0 used.0)),
            )
      ]

  module _ (pid : ℕ) (map xs : List A) (i n : ℕ) (at : At map i xs) (used : All IsUsed xs) where
    pub removal_loop_miss :
        (x : A) (found : Option (ℕ × A))
        → All (IsOther pid) xs
        → length xs < n
        → get_elem? map (i + length xs) ≡ some x
        → pid_of x ≡ 0
        → pid ≢ 0
        → removal_loop pid_of pid n i found map
          ≡ record { found = found; stop = some (i + length xs) }
    removal_loop_miss x found others h g z nz =
        rw
          (removal_skip pid map xs i n (suc (n - length xs - 1)) found at used others (omega arith))
          (unfold removal_loop in ground (arith, g, eq→== (pid_of x) 0 z, ne→== (pid_of x) pid))

    pub removal_loop_full :
        (found : Option (ℕ × A))
        → n ≡ length xs
        → (removal_loop pid_of pid n i found map).stop ≡ none
    removal_loop_full found h =
        let (f, p) = removal_pass pid map xs i n 0 found at used (omega arith) in
        rw p (unfold removal_loop in refl)

  -- The last match counts.
  pub removal_loop_hit :
      (pid : ℕ) (map a : List A) (x : A) (b : List A) (n : ℕ) (z : A)
      → At map 0 a
      → get_elem? map (length a) ≡ some x
      → At map (length a + 1) b
      → get_elem? map (length a + 1 + length b) ≡ some z
      → All IsUsed a
      → All IsUsed b
      → All (IsOther pid) b
      → pid_of x ≡ pid
      → pid_of z ≡ 0
      → pid ≢ 0
      → length a + 1 + length b < n
      → removal_loop pid_of pid n 0 none map
        ≡ record { found = some (length a, x); stop = some (length a + 1 + length b) }
  removal_loop_hit pid map a x b n z at_a at_x at_b at_z used_a used_b others m free_z nz h =
      let r : ℕ = n - length a - 1 in
      let (f, p) = removal_pass pid map a 0 n (suc r) none at_a used_a (omega arith) in
      let e0 : 0 + length a ≡ length a = omega arith in
      rw
        (
          p,
          e0,
          ← removal_loop_miss pid map b (length a + 1) r at_b used_b z (some (length a, x)) others
              (omega arith) at_z free_z nz,
        )
        (unfold removal_loop in ground (arith, at_x, eq→== (pid_of x) pid m))
