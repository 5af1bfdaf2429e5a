-- ===== src/Daemon/Decimal.antt =====
-- `sprintf` with %ld, for a `long` that is not negative.
use native.Mathlib.Nat.{pow-suc}
use nhi.Prelude.{
  ℕ, zero, suc, ◌+◌, ◌/◌, ◌%◌, ◌^◌, ◌<◌, ◌≤◌, ◌≡◌, List, [], ◌∷◌, ◌++◌, arith, length,
  length-append, ltb, if◌then◌else◌,
}

-- The digits, on fuel for one digit each.
unfoldable pub digits : ℕ → ℕ → List ℕ
digits zero n = []
digits (suc fuel) n =
    let more = digits fuel (n / 10) in
    if ltb n 10 then (48 + n) ∷ [] else more ++ (48 + n % 10) ∷ []

-- A `long` is below 2 ^ 63 and has at most 19 digits.
unfoldable pub decimal : ℕ → List ℕ
unfolding digits
decimal n = digits 20 n

one-le-pow : (k : ℕ) → 1 ≤ 10 ^ k
one-le-pow zero = omega arith
one-le-pow (suc k) = omega (arith, one-le-pow k, pow-suc 10 k)

length-digits :
    (fuel k n : ℕ) → k < fuel → n < 10 ^ suc k → 10 ^ k ≤ n → length (digits fuel n) ≡ suc k
unfolding digits
length-digits zero k n f hi lo = absurd (omega arith)
length-digits (suc fuel) zero n f hi lo = ground arith
length-digits (suc fuel) (suc k) n f hi lo =
    let step =
      length-digits fuel k (n / 10) (omega arith) (omega (arith, pow-suc 10 (suc k)))
        (omega (arith, pow-suc 10 k)) in
    let big : 10 ≤ n = omega (arith, pow-suc 10 k, one-le-pow k) in
    ground (arith, step, length-append (digits fuel (n / 10)) ((48 + n % 10) ∷ []))

-- A number of eleven digits is printed as eleven characters.
pub length-decimal : (n : ℕ) → 10 ^ 10 ≤ n → n < 10 ^ 11 → length (decimal n) ≡ 11
unfolding decimal
length-decimal n lo hi = length-digits 20 10 n (omega arith) hi lo

-- One of four digits as four.
pub length-decimal_four : (n : ℕ) → 1000 ≤ n → n < 10000 → length (decimal n) ≡ 4
unfolding decimal
length-decimal_four n lo hi = length-digits 20 3 n (omega arith) hi lo
