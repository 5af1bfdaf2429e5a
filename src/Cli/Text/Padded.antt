-- ===== src/Cli/Text/Padded.antt =====
-- How strconv.Atoi reads a number with zeros in front of it.
use nhi.Prelude.{
  ℕ, zero, suc, ◌^◌, ◌<◌, ◌≤◌, ◌≡◌, ◌⊎◌, refl, ◌∙◌, List, ◌++◌, some, All, arith, length,
  length-append, All-append, replicate,
}
use nhi.Daemon.Decimal.{decimal}
use nhi.Cli.Text.{pos, read_digits, atoi}
use nhi.Cli.Text.Laws.{
  IsDigit, Avoids, atoi-digits, read_digits-digits, digits-Avoids, decimal-IsDigit,
  length-decimal_some,
}

-- A number that is printed with so many zeros in front of it.
abbrev pub padded : ℕ → ℕ → List ℕ
padded k n = replicate k b'0' ++ decimal n

read_digits-zeros : (k : ℕ) (s : List ℕ) → read_digits (replicate k b'0' ++ s) 0 ≡ read_digits s 0
unfolding read_digits
read_digits-zeros zero s = refl
read_digits-zeros (suc k) s = read_digits-zeros k s

zeros-IsDigit : (k : ℕ) → All IsDigit (replicate k b'0')
zeros-IsDigit zero = tt
zeros-IsDigit (suc k) = ((omega arith, omega arith), zeros-IsDigit k)

padded-IsDigit : (k n : ℕ) → All IsDigit (padded k n)
padded-IsDigit k n =
    All-append IsDigit (replicate k b'0') (decimal n) (zeros-IsDigit k) (decimal-IsDigit n)

length-padded_some : (k n : ℕ) → 0 < length (padded k n)
length-padded_some k n =
    omega (arith, length-append (replicate k b'0') (decimal n), length-decimal_some n)

read_digits-decimal : (n : ℕ) → n < 2 ^ 63 → read_digits (decimal n) 0 ≡ some n
unfolding decimal
read_digits-decimal n h = read_digits-digits 19 n (omega arith)

pub atoi-padded : (k n : ℕ) → n < 2 ^ 63 → atoi (padded k n) ≡ some (pos n)
atoi-padded k n h =
    atoi-digits (padded k n) n (padded-IsDigit k n) (length-padded_some k n)
      (read_digits-zeros k (decimal n) ∙ read_digits-decimal n h) h

pub padded-Avoids : (c k n : ℕ) → (c < 48) ⊎ (58 ≤ c) → Avoids c (padded k n)
padded-Avoids c k n other = digits-Avoids c (padded k n) other (padded-IsDigit k n)
