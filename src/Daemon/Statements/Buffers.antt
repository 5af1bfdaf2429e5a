-- ===== src/Daemon/Statements/Buffers.antt =====
-- Which statements of daemon/src/sqlite.c fit the array that their text is printed into.
use nhi.Prelude.{ℕ, ◌+◌, ◌^◌, ◌<◌, ◌≤◌, ◌≡◌, ◌*◌, List, ◌++◌, arith, length, length-append}
use nhi.Daemon.Decimal.{decimal, length-decimal}
use nhi.Daemon.Statements.{
  sprintf_once, sprintf_twice, create_table_query, create_row_query, add_ps1_query,
  add_command_query, add_output_query, add_exit_status_query, add_pwd_query, add_start_time_query,
  add_finish_time_query, add_indicator_query,
}

length-sprintf_once :
    (head : List ℕ) (indicator : ℕ) (tail : List ℕ)
    → length (sprintf_once head indicator tail)
      ≡ length head + length (decimal indicator) + length tail
unfolding sprintf_once
length-sprintf_once head indicator tail =
    omega (
      arith,
      length-append head (decimal indicator ++ tail),
      length-append (decimal indicator) tail,
    )

length-sprintf_twice :
    (head : List ℕ) (indicator : ℕ) (middle tail : List ℕ)
    → length (sprintf_twice head indicator middle tail)
      ≡ length head + 2 * length (decimal indicator) + length middle + length tail
unfolding sprintf_twice
length-sprintf_twice head indicator middle tail = omega (
  arith,
  length-append head (decimal indicator ++ (middle ++ (decimal indicator ++ tail))),
  length-append (decimal indicator) (middle ++ (decimal indicator ++ tail)),
  length-append middle (decimal indicator ++ tail),
  length-append (decimal indicator) tail,
)

-- The text of a statement and the NUL behind it fit an array of so many bytes.
abbrev pub Fits : ℕ → List ℕ → Type 0
Fits size query = length query + 1 ≤ size

-- Indicators of eleven digits: those of the years 2001 to 2286.
abbrev pub IsCurrent : ℕ → Type 0
IsCurrent indicator = (10 ^ 10 ≤ indicator) × (indicator < 10 ^ 11)

module _ (indicator : ℕ) (current : IsCurrent indicator) where
  once-length :
      (head tail : List ℕ)
      → length (sprintf_once head indicator tail) ≡ length head + 11 + length tail
  once-length head tail =
      omega (
        arith,
        length-sprintf_once head indicator tail,
        length-decimal indicator current.0 current.1,
      )

  twice-length :
      (head middle tail : List ℕ)
      → length (sprintf_twice head indicator middle tail)
        ≡ length head + 22 + length middle + length tail
  twice-length head middle tail = omega (
    arith,
    length-sprintf_twice head indicator middle tail,
    length-decimal indicator current.0 current.1,
  )

-- For every indicator of eleven digits, the texts of these eight functions fit their arrays of 100
-- bytes.
pub queries_fit :
    (indicator : ℕ)
    → IsCurrent indicator
    → Fits 100 (create_row_query indicator)
      × Fits 100 (add_ps1_query indicator)
      × Fits 100 (add_command_query indicator)
      × Fits 100 (add_output_query indicator)
      × Fits 100 (add_exit_status_query indicator)
      × Fits 100 (add_pwd_query indicator)
      × Fits 100 (add_finish_time_query indicator)
      × Fits 100 (add_indicator_query indicator)
unfolding create_row_query add_ps1_query add_command_query add_output_query add_exit_status_query
    add_pwd_query add_finish_time_query add_indicator_query
queries_fit indicator current = (
  rw (once-length indicator current) (omega arith),
  rw (twice-length indicator current) (omega arith),
  rw (twice-length indicator current) (omega arith),
  rw (twice-length indicator current) (omega arith),
  rw (twice-length indicator current) (omega arith),
  rw (twice-length indicator current) (omega arith),
  rw (twice-length indicator current) (omega arith),
  rw (twice-length indicator current) (omega arith),
)

-- For every indicator of eleven digits, the text of `create_table` runs past its array of 150 bytes
-- by 4, and that of `add_start_time` past its array of 100 by 15.
pub queries_overflow :
    (indicator : ℕ)
    → IsCurrent indicator
    → (length (create_table_query indicator) + 1 ≡ 150 + 4)
      × (length (add_start_time_query indicator) + 1 ≡ 100 + 15)
unfolding create_table_query add_start_time_query
queries_overflow indicator current = (
  rw (once-length indicator current) (omega arith),
  rw (twice-length indicator current) (omega arith),
)
