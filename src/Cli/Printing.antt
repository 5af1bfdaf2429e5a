-- ===== src/Cli/Printing.antt =====
-- printRows of pkg/fetch/fetch.go: the rows of a session are printed, and the sessions that were
-- started from it with them. Texts are bytes.
pub mod Recorded
pub mod Steps
pub mod Shown
pub mod Children
use nhi.Prelude.{
  ℕ, zero, suc, Bool, true, false, not, List, [], ◌∷◌, ◌++◌, Option, none, some, codes, length,
  take, ◌==◌, ltb, if◌then◌else◌,
}

-- One call of fmt.Print or fmt.Println, or of fmt.Fprint with os.Stderr.
pub data Print : Type 0 where
  to_stdout to_stderr : List ℕ → Print

-- How a call ends: with nil, with an error, in a panic, or, in the model, without fuel.
pub data Ending : Type 0 where
  returned : Ending
  failed : List ℕ → Ending
  panicked : Ending
  out_of_fuel : Ending

-- What a call prints, and how it ends.
abbrev pub Run : Type 0
Run = List Print × Ending

-- The second call follows where the first returns.
abbrev pub and_then : Run → Run → Run
and_then (ps, returned) next = (ps ++ next.0, next.1)
and_then (ps, failed message) next = (ps, failed message)
and_then (ps, panicked) next = (ps, panicked)
and_then (ps, out_of_fuel) next = (ps, out_of_fuel)

abbrev pub prints : List Print → Run
prints ps = (ps, returned)

-- stdoutOutput, stderrOutput and writeStdout
pub record Buffers : Type 0 where
  pub stdout_output : List ℕ
  pub stderr_output : List ℕ
  pub write_stdout : Bool

abbrev pub no_output : Buffers
no_output = record { stdout_output = []; stderr_output = []; write_stdout = false }

abbrev pub stderr_text : Bool → List ℕ → List ℕ
stderr_text true output = (27 ∷ codes "[31m") ++ (output ++ 27 ∷ codes "[0m")
stderr_text false output = output

abbrev pub flush_stderr : Bool → Buffers → List ℕ → List Print × Buffers
flush_stderr red b [] = ([], b)
flush_stderr red b (c ∷ cs) =
    (to_stderr (stderr_text red (c ∷ cs)) ∷ [], record b { stderr_output = [] })

abbrev pub flush_stdout : Bool → Buffers → List ℕ → List Print × Buffers
flush_stdout red b [] = flush_stderr red b b.stderr_output
flush_stdout red b (c ∷ cs) = (to_stdout (c ∷ cs) ∷ [], record b { stdout_output = [] })

-- The one buffer that holds something is printed and emptied.
unfoldable pub flush : Bool → Buffers → List Print × Buffers
flush red b = flush_stdout red b b.stdout_output

abbrev pub append_byte : ℕ → Buffers → Buffers
append_byte c b =
    if b.write_stdout
    then record b { stdout_output = b.stdout_output ++ c ∷ [] }
    else record b { stderr_output = b.stderr_output ++ c ∷ [] }

-- What a byte of the output is.
pub data Kind : Type 0 where
  stdout_mark stderr_mark link plain : Kind

unfoldable pub kind : ℕ → Kind
kind c =
    if c == 255
    then stdout_mark
    else if c == 254
    then stderr_mark
    else if c == 253
    then link
    else plain

-- `copy` of zeros over the first bytes
unfoldable pub overwrite : ℕ → List ℕ → List ℕ
overwrite zero cells = cells
overwrite (suc n) [] = []
overwrite (suc n) (c ∷ cells) = 0 ∷ overwrite n cells

module _ (stderr_in_red fetch_child_shells : Bool) (fetch : List ℕ → Run) where
  abbrev pub fetch_child : List ℕ → Run
  fetch_child indicator = if fetch_child_shells then fetch indicator else prints []

  -- The loop over the `n` bytes of the output that are left. `cells` are what its array holds from here
  -- on, which may go on behind them: `output[i+1:i+12]` may reach into what is behind, but not further.
  unfoldable pub print_bytes : ℕ → List ℕ → Buffers → Run
  unfolding flush kind overwrite
  print_bytes zero cells b = prints (flush stderr_in_red b).0
  print_bytes (suc n) [] b = prints (flush stderr_in_red b).0
  print_bytes (suc n) (c ∷ cells) b = elim (kind c) [
    | stdout_mark ↦
        let flushed = flush stderr_in_red b in
        and_then (prints flushed.0) (print_bytes n cells (record flushed.1 { write_stdout = true }))
    | stderr_mark ↦
        let flushed = flush stderr_in_red b in
        and_then (prints flushed.0)
          (print_bytes n cells (record flushed.1 { write_stdout = false }))
    | link ↦ elim (ltb (length cells) 11) [
      | true ↦ ([], panicked)
      | false ↦ and_then (fetch_child (take 11 cells)) (print_bytes n (overwrite 11 cells) b)
    ]
    | plain ↦ print_bytes n cells (append_byte c b)
  ]

  -- `spare` are the bytes behind the output in its array.
  unfoldable pub print_output : List ℕ → List ℕ → Run
  unfolding print_bytes
  print_output output spare = print_bytes (length output) (output ++ spare) no_output

-- The columns PS1, command and output of a row, `none` for NULL, with the bytes behind the output.
pub record Fetched : Type 0 where
  pub ps1 : Option (List ℕ)
  pub command : Option (List ℕ)
  pub output : List ℕ
  pub spare : List ℕ

-- What rows.Scan leaves in PS1 and command: it stops at the first NULL, as a string cannot hold it.
abbrev pub scanned : Fetched → List ℕ × List ℕ
scanned row = elim row.ps1 [
  | none ↦ ([], [])
  | some ps1 ↦ elim row.command [ none ↦ (ps1, []) | some command ↦ (ps1, command) ]
]

-- regexp.MatchString is given by the Boolean that it returns: false with an error.
abbrev pub is_match : (List ℕ → List ℕ → Bool) → List ℕ → List ℕ → Bool
is_match match_string [] command = true
is_match match_string (c ∷ regex) command = match_string (c ∷ regex) command

module _ (match_string : List ℕ → List ℕ → Bool) (command_regex : List ℕ)
    (fetch_child_shells stderr_in_red : Bool) (fetch : List ℕ → Run) where
  -- A row that is not skipped.
  unfoldable pub print_row : List ℕ → List ℕ → Fetched → Run
  unfolding print_output
  print_row ps1 command row =
      and_then (prints (to_stdout ps1 ∷ to_stdout (command ++ 10 ∷ []) ∷ []))
        (print_output stderr_in_red fetch_child_shells fetch row.output row.spare)

  abbrev pub print_scanned : List ℕ × List ℕ → Fetched → Run
  print_scanned (ps1, []) row = prints []
  print_scanned (ps1, c ∷ command) row = elim (is_match match_string command_regex (c ∷ command)) [
    | true ↦ print_row ps1 (c ∷ command) row
    | false ↦ prints []
  ]

  unfoldable pub print_rows : List Fetched → Run
  unfolding print_row
  print_rows [] = prints []
  print_rows (row ∷ rows) = and_then (print_scanned (scanned row) row) (print_rows rows)
