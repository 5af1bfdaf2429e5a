-- ===== src/Cli/Fetch.antt =====
-- Fetch of pkg/fetch/fetch.go. A session whose output names sessions is fetched with them, each by a
-- call of Fetch of its own: the calls within each other are as deep as the fuel at most.
pub mod Termination
use nhi.Prelude.{
  ℕ, zero, suc, Bool, true, false, List, [], ◌∷◌, ◌++◌, codes, same_text, if◌then◌else◌,
}
use nhi.Cli.Text.{ℤ, Result, ok, error}
use nhi.Cli.Range.{get_slice_start_end_range, get_start_and_end_range_int}
use nhi.Cli.Where.{Date, get_where}
use nhi.Cli.Printing.{Run, Ending, failed, out_of_fuel, Fetched, print_rows}

-- What is not of this repository: db.Query with all that is scanned of its rows, which is the same each
-- time as nothing is written in between; regexp.MatchString; time.Date in the local zone with Unix().
pub record Packages : Type 0 where
  pub query : List ℕ → Result (List Fetched)
  pub match_string : List ℕ → List ℕ → Bool
  pub unix : Date → ℤ

-- The options of `nhi fetch`; a text is empty where its option is left out.
pub record Options : Type 0 where
  pub exit_status : List ℕ
  pub directory : List ℕ
  pub command_regex : List ℕ
  pub before : List ℕ
  pub after : List ℕ
  pub fetch_child_shells : Bool
  pub stderr_in_red : Bool

-- Those that a child is fetched with.
abbrev pub child_options : Bool → Options
child_options stderr_in_red = record {
  exit_status = [];
  directory = [];
  command_regex = [];
  before = [];
  after = [];
  fetch_child_shells = true;
  stderr_in_red = stderr_in_red;
}

abbrev pub rows_query : List ℕ → List ℕ → List ℕ
rows_query indicator condition =
    codes "SELECT PS1, command, output FROM `"
    ++ indicator
    ++ codes "` WHERE "
    ++ condition
    ++ codes ";"

abbrev pub query_failure : List ℕ → List ℕ → List ℕ
query_failure indicator message =
    if same_text message (codes "no such table: " ++ indicator)
    then codes "no such shell session: " ++ indicator
    else message

module _ (packages : Packages) where
  -- Up to the query.
  unfoldable pub condition_of : List ℕ → List ℕ → Options → Result (List ℕ)
  unfolding get_slice_start_end_range get_start_and_end_range_int get_where
  condition_of indicator start_end_range o = elim (get_slice_start_end_range start_end_range) [
    | error message ↦ error message
    | ok slice ↦ elim (get_start_and_end_range_int slice) [
      | error message ↦ error message
      | ok ints ↦
          get_where packages.unix slice ints.0 ints.1 indicator o.exit_status o.directory o.before
            o.after
    ]
  ]

  unfoldable pub print_answer : (List ℕ → Run) → List ℕ → Options → Result (List Fetched) → Run
  unfolding print_rows
  print_answer fetch_session indicator o (error message) =
      ([], failed (query_failure indicator message))
  print_answer fetch_session indicator o (ok rows) =
      print_rows packages.match_string o.command_regex o.fetch_child_shells o.stderr_in_red
        fetch_session rows

  unfoldable pub fetch : ℕ → List ℕ → List ℕ → Options → Run
  unfolding condition_of print_answer
  fetch zero indicator start_end_range o = ([], out_of_fuel)
  fetch (suc fuel) indicator start_end_range o = elim (condition_of indicator start_end_range o) [
    | error message ↦ ([], failed message)
    | ok condition ↦
        print_answer (λ child. fetch fuel child (codes ":") (child_options o.stderr_in_red))
          indicator o (packages.query (rows_query indicator condition))
  ]
