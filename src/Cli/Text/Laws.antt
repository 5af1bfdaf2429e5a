-- ===== src/Cli/Text/Laws.antt =====
-- Laws of the texts: a number that is printed is read again, and a text is cut where it was put
-- together.
use native.Mathlib.Nat.{pow-suc}
use nhi.Prelude.{
  ℕ, zero, suc, ◌+◌, ◌*◌, ◌-◌, ◌/◌, ◌%◌, ◌^◌, ◌<◌, ◌≤◌, ◌≡◌, ◌≢◌, refl, sym, ap, subst, Bool, true,
  false, List, [], ◌∷◌, ◌++◌, Option, none, some, arith, length, length-append, All, All-append,
  ◌==◌, ltb, if◌then◌else◌, ne→==, ==_refl, ◌⊎◌, Bool-cases, inl, inr,
}
use mathlib.Core.Option.{some-injective}
use nhi.Daemon.Decimal.{decimal, digits}
use nhi.Cli.Text.{
  ℤ, pos, negsuc, trim_suffix, cut, split_n, is_digit, read_digits, unsigned, atoi, itoa,
}

abbrev pub IsDigit : ℕ → Type 0
IsDigit c = (48 ≤ c) × (c < 58)

-- A guarded value that is there.
guarded :
    {A : Type 0} (b : Bool) (o : Option A) (a : A)
    → (if b then o else none) ≡ some a
    → (b ≡ true) × (o ≡ some a)
guarded true o a e = (refl, e)
guarded false o a e = absurd (cc e)

read_digits-snoc :
    (s : List ℕ) (d seen n : ℕ)
    → d < 10
    → read_digits s seen ≡ some n
    → read_digits (s ++ (48 + d) ∷ []) seen ≡ some (n * 10 + d)
unfolding read_digits
read_digits-snoc [] d seen n h e =
    let same : seen ≡ n = some-injective _ _ e in
    let value : seen * 10 + (48 + d - 48) ≡ n * 10 + d = omega (arith, same) in
    let digit : is_digit (48 + d) ≡ true = ground arith in rw (digit, value) refl
read_digits-snoc (c ∷ s) d seen n h e =
    let read = guarded (is_digit c) (read_digits s (seen * 10 + (c - 48))) n e in
    rw (read_digits, read.0) (read_digits-snoc s d (seen * 10 + (c - 48)) n h read.1)

read_digits-one : (fuel n : ℕ) → n < 10 → read_digits (digits (suc fuel) n) 0 ≡ some n
unfolding read_digits digits
read_digits-one fuel n bound =
    let small : ltb n 10 ≡ true = ground arith in
    let digit : is_digit (48 + n) ≡ true = ground arith in
    let value : 0 * 10 + (48 + n - 48) ≡ n = omega arith in rw (digits, small, digit, value) refl

-- The digits of a number are read as it.
pub read_digits-digits :
    (fuel n : ℕ) → n < 10 ^ suc fuel → read_digits (digits (suc fuel) n) 0 ≡ some n
unfolding digits
read_digits-digits zero n h = read_digits-one 0 n (omega arith)
read_digits-digits (suc fuel) n h = elim (Bool-cases (ltb n 10)) [
  | inl small ↦ read_digits-one (suc fuel) n (ground arith)
  | inr large ↦
      let value : n / 10 * 10 + n % 10 ≡ n = omega arith in
      rw (digits, large)
        (subst (λ m. read_digits (digits (suc fuel) (n / 10) ++ (48 + n % 10) ∷ []) 0 ≡ some m)
          value
          (read_digits-snoc (digits (suc fuel) (n / 10)) (n % 10) 0 (n / 10) (omega arith)
            (read_digits-digits fuel (n / 10) (omega (arith, pow-suc 10 (suc fuel))))))
]

digits-IsDigit : (fuel n : ℕ) → All IsDigit (digits fuel n)
unfolding digits
digits-IsDigit zero n = tt
digits-IsDigit (suc fuel) n = elim (Bool-cases (ltb n 10)) [
  | inl small ↦
      let bound : n < 10 = ground arith in
      let first : 48 ≤ 48 + n = omega arith in
      let last : 48 + n < 58 = omega arith in rw (digits, small) ((first, last), tt)
  | inr large ↦
      rw (digits, large)
        (All-append IsDigit (digits fuel (n / 10)) ((48 + n % 10) ∷ [])
          (digits-IsDigit fuel (n / 10)) ((omega arith, omega arith), tt))
]

length-digits_some : (fuel n : ℕ) → 0 < length (digits (suc fuel) n)
unfolding digits
length-digits_some fuel n =
    ground (arith, length-append (digits fuel (n / 10)) ((48 + n % 10) ∷ []))

pub atoi-digits :
    (s : List ℕ) (n : ℕ)
    → All IsDigit s
    → 0 < length s
    → read_digits s 0 ≡ some n
    → n < 2 ^ 63
    → atoi s ≡ some (pos n)
unfolding atoi unsigned
atoi-digits [] n h some_digit e lo = absurd (omega arith)
atoi-digits (c ∷ s) n h some_digit e lo =
    let minus : (c == b'-') ≡ false = ground (arith, h.0.0) in
    let plus : (c == b'+') ≡ false = ground (arith, h.0.0) in
    let small : ltb n (2 ^ 63) ≡ true = ground arith in rw (minus, plus, e, small) refl

unsigned-digits :
    (s : List ℕ) (n : ℕ) → 0 < length s → read_digits s 0 ≡ some n → unsigned s ≡ some n
unfolding unsigned read_digits
unsigned-digits [] n some_digit e = absurd (omega arith)
unsigned-digits (c ∷ s) n some_digit e = e

-- The numbers of 64 bits, which a Go `int` is.
abbrev pub IsInt : ℤ → Type 0
IsInt (pos n) = n < 2 ^ 63
IsInt (negsuc n) = n < 2 ^ 63

pub atoi-itoa : (z : ℤ) → IsInt z → atoi (itoa z) ≡ some z
unfolding atoi itoa decimal
atoi-itoa (pos n) h =
    atoi-digits (digits 20 n) n (digits-IsDigit 20 n) (length-digits_some 19 n)
      (read_digits-digits 19 n (omega arith)) h
atoi-itoa (negsuc n) h =
    let small : ltb n (2 ^ 63) ≡ true = ground arith in
    rw
      (
        unsigned-digits (digits 20 (suc n)) (suc n) (length-digits_some 19 (suc n))
            (read_digits-digits 19 (suc n) (omega arith)),
        small,
      )
      refl

-- A text without the byte `c`.
abbrev pub Avoids : ℕ → List ℕ → Type 0
Avoids c s = All (λ d. d ≢ c) s

cut-append :
    (c : ℕ) (before after : List ℕ)
    → Avoids c before
    → cut c (before ++ c ∷ after) ≡ some (before, after)
unfolding cut
cut-append c [] after h = rw (==_refl c) refl
cut-append c (d ∷ before) after h = rw (ne→== d c h.0, cut-append c before after h.1) refl

-- A text that is put together of two or three pieces is split into them.
pub split_two : (c : ℕ) (a b : List ℕ) → Avoids c a → split_n c 2 (a ++ c ∷ b) ≡ a ∷ b ∷ []
unfolding split_n
split_two c a b h = rw (split_n, cut-append c a b h) refl

pub split_three :
    (c : ℕ) (a b d : List ℕ)
    → Avoids c a
    → Avoids c b
    → split_n c 3 (a ++ c ∷ (b ++ c ∷ d)) ≡ a ∷ b ∷ d ∷ []
unfolding split_n
split_three c a b d h h' =
    rw (split_n, cut-append c a (b ++ c ∷ d) h, split_n, cut-append c b d h') refl

pub trim_suffix-append : (c : ℕ) (s : List ℕ) → trim_suffix c (s ++ c ∷ []) ≡ s
unfolding trim_suffix
trim_suffix-append c [] = rw (==_refl c) refl
trim_suffix-append c (d ∷ []) = rw (trim_suffix, ==_refl c) refl
trim_suffix-append c (d ∷ d' ∷ s) = ap (λ (l : List ℕ). d ∷ l) (trim_suffix-append c (d' ∷ s))

-- A digit is not a byte below or above the digits.
pub digits-Avoids : (c : ℕ) (s : List ℕ) → (c < 48) ⊎ (58 ≤ c) → All IsDigit s → Avoids c s
digits-Avoids c [] other h = tt
digits-Avoids c (d ∷ s) other h = (λ e. ground (arith, other, e), digits-Avoids c s other h.1)

pub decimal-IsDigit : (n : ℕ) → All IsDigit (decimal n)
unfolding decimal
decimal-IsDigit n = digits-IsDigit 20 n

pub length-decimal_some : (n : ℕ) → 0 < length (decimal n)
unfolding decimal
length-decimal_some n = length-digits_some 19 n

pub length-itoa_some : (z : ℤ) → 0 < length (itoa z)
unfolding itoa
length-itoa_some (pos n) = length-decimal_some n
length-itoa_some (negsuc n) = omega arith

-- An integer has no byte but digits and a minus.
pub itoa-Avoids : (c : ℕ) (z : ℤ) → c ≢ b'-' → (c < 48) ⊎ (58 ≤ c) → Avoids c (itoa z)
unfolding itoa
itoa-Avoids c (pos n) minus other = digits-Avoids c (decimal n) other (decimal-IsDigit n)
itoa-Avoids c (negsuc n) minus other =
    (λ e. minus (sym e), digits-Avoids c (decimal (suc n)) other (decimal-IsDigit (suc n)))

pub natural-Avoids : (c n : ℕ) → (c < 48) ⊎ (58 ≤ c) → Avoids c (itoa (pos n))
unfolding itoa
natural-Avoids c n other = digits-Avoids c (decimal n) other (decimal-IsDigit n)
