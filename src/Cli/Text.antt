-- ===== src/Cli/Text.antt =====
-- What the tool uses of Go's packages strings, strconv and fmt, on texts as lists of bytes, and its
-- results: a value, or an error by its message. A Go `int` has 64 bits.
pub mod Laws
pub mod Padded
use nhi.Prelude.{
  ℕ, zero, suc, ◌+◌, ◌*◌, ◌-◌, ◌^◌, Bool, true, false, ◌&&◌, List, [], ◌∷◌, ◌++◌, Option, none,
  some, codes, ◌==◌, ltb, leb, if◌then◌else◌,
}
use nhi.Daemon.Decimal.{decimal}

pub data ℤ : Type 0 where
  pos negsuc : ℕ → ℤ

abbrev pub lt : ℤ → ℤ → Bool
lt (pos m) (pos n) = ltb m n
lt (pos m) (negsuc n) = false
lt (negsuc m) (pos n) = true
lt (negsuc m) (negsuc n) = ltb n m

abbrev pub is : ℤ → ℕ → Bool
is (pos m) n = m == n
is (negsuc m) n = false

-- What a function returns with a nil error, or the message of its error.
pub data Result {ℓ} (A : Type ℓ) : Type ℓ where
  ok : A → Result A
  error : List ℕ → Result A

-- TrimPrefix and TrimSuffix, for a text of one byte
abbrev pub trim_prefix : ℕ → List ℕ → List ℕ
trim_prefix c [] = []
trim_prefix c (d ∷ s) = if d == c then s else d ∷ s

unfoldable pub trim_suffix : ℕ → List ℕ → List ℕ
trim_suffix c [] = []
trim_suffix c (d ∷ []) = if d == c then [] else d ∷ []
trim_suffix c (d ∷ d' ∷ s) = d ∷ trim_suffix c (d' ∷ s)

abbrev pub prepend : ℕ → Option (List ℕ × List ℕ) → Option (List ℕ × List ℕ)
prepend d none = none
prepend d (some (before, after)) = some (d ∷ before, after)

-- What stands before and after the first `c`.
unfoldable pub cut : ℕ → List ℕ → Option (List ℕ × List ℕ)
cut c [] = none
cut c (d ∷ s) = let rest = cut c s in if d == c then some ([], s) else prepend d rest

-- SplitN at one byte, into at most `n` pieces; a text without it is one piece.
unfoldable pub split_n : ℕ → ℕ → List ℕ → List (List ℕ)
unfolding cut
split_n c zero s = []
split_n c (suc zero) s = s ∷ []
split_n c (suc (suc n)) s = elim (cut c s) [
  | none ↦ s ∷ []
  | some (before, after) ↦ before ∷ split_n c (suc n) after
]

abbrev pub is_digit : ℕ → Bool
is_digit c = leb b'0' c && ltb c 58

-- The number that the digits stand for, behind those that are read already.
unfoldable pub read_digits : List ℕ → ℕ → Option ℕ
read_digits [] seen = some seen
read_digits (c ∷ s) seen =
    let rest = read_digits s (seen * 10 + (c - 48)) in if is_digit c then rest else none

abbrev pub positive : Option ℕ → Option ℤ
positive none = none
positive (some n) = if ltb n (2 ^ 63) then some (pos n) else none

abbrev pub negative : Option ℕ → Option ℤ
negative none = none
negative (some zero) = some (pos 0)
negative (some (suc n)) = if ltb n (2 ^ 63) then some (negsuc n) else none

unfoldable pub unsigned : List ℕ → Option ℕ
unfolding read_digits
unsigned [] = none
unsigned (c ∷ s) = read_digits (c ∷ s) 0

-- Atoi: a sign, which may be left out, and at least one digit; `none` is an error.
unfoldable pub atoi : List ℕ → Option ℤ
atoi [] = none
atoi (c ∷ s) =
    if c == b'-'
    then negative (unsigned s)
    else if c == b'+'
    then positive (unsigned s)
    else positive (unsigned (c ∷ s))

-- Itoa, and %d
unfoldable pub itoa : ℤ → List ℕ
itoa (pos n) = decimal n
itoa (negsuc n) = b'-' ∷ decimal (suc n)
