-- ===== src/Cli/Tests.antt =====
-- Runs of the tool on small inputs.
use nhi.Prelude.{
  ◌-◌, ℕ, ◌<◌, ◌≡◌, ◌≢◌, refl, ap, subst, Bool, true, false, List, [], ◌∷◌, ◌++◌, none, some, All,
  arith, codes, drop, ◌==◌, if◌then◌else◌,
}
use nhi.Daemon.Decimal.{decimal, digits}
use nhi.Cli.Text.{
  ℤ, pos, negsuc, Result, ok, error, trim_suffix, split_n, cut, atoi, unsigned, read_digits, itoa,
}
use nhi.Cli.Range.{
  billion, get_slice_start_end_range, get_start_and_end_range_int, get_where_from_range,
}
use nhi.Cli.Range.Laws.{range_text, range_text-read}
use nhi.Cli.Where.{
  Date, get_where, range_where, exit_status_where, directory_where, parse_date, number,
  start_time_where,
}
use nhi.Cli.Where.Laws.{WrittenDate, meant_date, get_where-dates}
use nhi.Cli.Printing.{
  to_stdout, to_stderr, Run, panicked, out_of_fuel, and_then, prints, Fetched, flush, kind,
  overwrite, print_bytes, print_output, print_row, print_rows,
}
use nhi.Cli.Printing.Recorded.{
  stdout, stderr, Written, links, recorded, blanks, fetch_children, shown, shown_all,
}
use nhi.Cli.Printing.Shown.{print_output-recorded}
use nhi.Cli.Printing.Children.{children_of, row_children}
use nhi.Cli.Fetch.{Packages, child_options, condition_of, print_answer, fetch}
use nhi.Cli.Fetch.Termination.{IsRanked, fetch_terminates}

-- A session is printed as its indicator.
abbrev named : List ℕ → Run
named indicator = prints (to_stdout indicator ∷ [])

abbrev writes : List Written
writes =
    record { stream = stdout; bytes = codes "hi"; children = codes "26500000001" ∷ [] }
    ∷ record { stream = stderr; bytes = codes "no"; children = [] }
    ∷ []

-- The bytes of a write come behind the session that was started after it.
print_output_test :
    print_output true true named (recorded writes) []
    ≡ prints (
        to_stdout (codes "26500000001")
        ∷ to_stdout (codes "hi" ++ 0 ∷ 0 ∷ 0 ∷ 0 ∷ 0 ∷ 0 ∷ 0 ∷ 0 ∷ 0 ∷ 0 ∷ 0 ∷ [])
        ∷ to_stderr (27 ∷ codes "[31mno" ++ 27 ∷ codes "[0m")
        ∷ [])
unfolding print_output print_bytes flush kind overwrite
print_output_test = refl

-- An indicator that is cut off is out of the bounds of the slice.
cut_off_test : print_output true false named (255 ∷ 253 ∷ codes "265") [] ≡ ([], panicked)
unfolding print_output print_bytes flush kind overwrite
cut_off_test = refl

-- A byte 254 that a program writes itself is taken for a mark.
marked_test :
    print_output false false named (255 ∷ 97 ∷ 254 ∷ 98 ∷ []) []
    ≡ prints (to_stdout (97 ∷ []) ∷ to_stderr (98 ∷ []) ∷ [])
unfolding print_output print_bytes flush kind overwrite
marked_test = refl

print_output-recorded_example :
    print_output true true named (links (codes "16500000001" ∷ []) ++ recorded writes) (0 ∷ [])
    ≡ and_then (fetch_children true true named (codes "16500000001" ∷ [])) (
        and_then
          (prints (shown true true named stderr (blanks (codes "16500000001" ∷ []))))
          (shown_all true true named writes))
print_output-recorded_example =
    print_output-recorded true true named (codes "16500000001" ∷ []) writes (0 ∷ []) (refl, tt)
      (((omega arith, (omega arith, tt)), (refl, tt)), (((omega arith, (omega arith, tt)), tt), tt))

range_text_test : range_text (some (negsuc 2)) none ≡ codes "{-3:}"
unfolding itoa decimal digits
range_text_test = refl

range_text-read_example :
    (slice : List ℕ × List ℕ) × (get_slice_start_end_range (range_text (some (negsuc 2)) none)
      ≡ ok slice)
    × (get_start_and_end_range_int slice ≡ ok (negsuc 2, pos (billion - 1)))
range_text-read_example = range_text-read (some (negsuc 2)) none (omega arith) tt

-- `nhi remove` of the last session but one: the bounds are rows counted from the end.
where_test :
    get_where_from_range (codes "-2", codes "-1") (negsuc 1) (negsuc 0) (codes "meta")
    ≡ codes
        "rowid >= (SELECT rowid FROM `meta` ORDER BY rowid DESC LIMIT 1 OFFSET 1) AND rowid < (SELECT rowid FROM `meta` ORDER BY rowid DESC LIMIT 1 OFFSET 0)"
unfolding get_where_from_range decimal digits
where_test = refl

-- A clock that shows the seconds of the date only.
abbrev seconds : Date → ℤ
seconds d = d.second

-- The fourth of May 2022, half past ten.
abbrev may : WrittenDate
may = record {
  year = (0, 2022);
  month = (1, 5);
  day = (1, 4);
  hour = (0, 10);
  minute = (0, 30);
  second = (1, 0);
}

parse_date_test : parse_date (codes "before") (codes "2022-05-04 10:30:00") ≡ ok (meant_date may)
unfolding parse_date split_n cut number atoi unsigned read_digits
parse_date_test = refl

-- The condition for the first rows of a session in a directory.
abbrev undated : List ℕ
undated = directory_where (codes "/tmp") (
    exit_status_where [] (range_where (codes "0", codes "5") (pos 0) (pos 5) (codes "16500000000")))

get_where-dates_example :
    get_where seconds
      (codes "0", codes "5")
      (pos 0)
      (pos 5)
      (codes "16500000000")
      []
      (codes "/tmp")
      (codes "2022-05-04 10:30:00")
      []
    ≡ ok ((undated ++ codes " AND start_time < '0'") ++ [])
unfolding get_where decimal digits start_time_where itoa
get_where-dates_example =
    get_where-dates seconds (codes "0", codes "5") (pos 0) (pos 5) (codes "16500000000") []
      (codes "/tmp") undated (some may) none
      record {
        year = omega arith;
        month = omega arith;
        day = omega arith;
        hour = omega arith;
        minute = omega arith;
        second = omega arith;
      }
      tt refl

-- A session whose indicator begins with 1 has one row, which names another session.
abbrev parent_row : Fetched
parent_row = record {
  ps1 = some (codes "$ ");
  command = some (codes "bash");
  output = 255 ∷ codes "hi" ++ 253 ∷ codes "26500000001";
  spare = [];
}

abbrev first_is_one : List ℕ → Bool
first_is_one [] = false
first_is_one (c ∷ s) = c == b'1'

abbrev rows_if : Bool → List Fetched
rows_if named_one = if named_one then parent_row ∷ [] else []

abbrev packages : Packages
packages = record {
  query = λ text. ok (rows_if (first_is_one (drop 34 text)));
  match_string = λ regex command. true;
  unix = seconds;
}

abbrev rank : List ℕ → ℕ
rank indicator = if first_is_one indicator then 1 else 0

abbrev rows_in : Result (List Fetched) → List Fetched
rows_in (ok rows) = rows
rows_in (error message) = []

abbrev AreBelow : ℕ → List Fetched → Type 0
AreBelow n rows = All (λ row. All (λ child. rank child < n) (row_children row)) rows

rows_below : (b : Bool) → AreBelow (if b then 1 else 0) (rows_if b)
unfolding children_of kind overwrite
rows_below true = ((omega arith, tt), tt)
rows_below false = tt

packages-IsRanked : IsRanked packages rank
packages-IsRanked [] condition rows e = subst (AreBelow 0) (ap rows_in e) (rows_below false)
packages-IsRanked (c ∷ indicator) condition rows e =
    subst (AreBelow (rank (c ∷ indicator))) (ap rows_in e) (rows_below (c == b'1'))

fetch_test :
    fetch packages 2 (codes "16500000000") (codes ":") (child_options false)
    ≡ prints (
        to_stdout (codes "$ ")
        ∷ to_stdout (codes "bash" ++ 10 ∷ [])
        ∷ to_stdout (codes "hi" ++ 0 ∷ 0 ∷ 0 ∷ 0 ∷ 0 ∷ 0 ∷ 0 ∷ 0 ∷ 0 ∷ 0 ∷ 0 ∷ [])
        ∷ [])
unfolding fetch condition_of get_slice_start_end_range trim_suffix split_n cut
    get_start_and_end_range_int atoi unsigned read_digits get_where range_where exit_status_where
    directory_where decimal digits print_answer print_rows print_row print_output print_bytes flush
    kind overwrite
fetch_test = refl

fetch_terminates_example :
    ((fetch packages 2 (codes "16500000000") (codes ":") (child_options false)).1 ≢ out_of_fuel)
    × (fetch packages 2 (codes "16500000000") (codes ":") (child_options false)
        ≡ fetch packages 7 (codes "16500000000") (codes ":") (child_options false))
fetch_terminates_example =
    fetch_terminates packages rank packages-IsRanked 2 5 (codes "16500000000") (codes ":")
      (child_options false) (omega arith)
