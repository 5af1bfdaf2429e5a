-- ===== src/Cli/Sessions.antt =====
-- GetSessionIndicator of pkg/utils/gets.go, Remove of pkg/remove/remove.go and Rename of
-- pkg/rename/rename.go. What db.Query gives is an argument, and what is handed to db.Exec is a result.
mod Tests
use nhi.Prelude.{
  ℕ, Bool, true, false, not, ◌||◌, List, [], ◌∷◌, ◌++◌, Option, none, some, codes, same_text,
  if◌then◌else◌,
}
use nhi.Daemon.Decimal.{decimal}
use nhi.Cli.Text.{ℤ, pos, negsuc, lt, Result, ok, error, trim_prefix, trim_suffix, atoi, itoa}
use nhi.Cli.Range.{get_slice_start_end_range, get_start_and_end_range_int, get_where_from_range}

abbrev pub name_query : List ℕ → List ℕ
name_query session = codes "SELECT indicator FROM `meta` WHERE name = '" ++ session ++ codes "';"

abbrev pub index_query : ℤ → List ℕ
index_query (pos n) = codes "SELECT indicator FROM `meta` LIMIT 1 OFFSET " ++ decimal n ++ codes ";"
index_query (negsuc n) =
    codes "SELECT indicator FROM `meta` ORDER BY rowid DESC LIMIT 1 OFFSET "
    ++ decimal n
    ++ codes ";"

abbrev pub trimmed_session : List ℕ → List ℕ
unfolding trim_suffix
trimmed_session session = trim_suffix b'}' (trim_prefix b'{' session)

-- A session is given by its name or by its index, which counts from the last one where it is negative.
unfoldable pub session_query : List ℕ → List ℕ
unfolding atoi
session_query session = elim (atoi session) [
  | none ↦ name_query session
  | some index ↦ if lt (pos 1000000000) index then name_query session else index_query index
]

-- The variable that rows.Scan fills keeps its 0 where there is no row.
abbrev pub first_indicator : Result (List ℤ) → Result (List ℕ)
first_indicator (error message) = error message
first_indicator (ok []) = ok (itoa (pos 0))
first_indicator (ok (indicator ∷ rows)) = ok (itoa indicator)

unfoldable pub get_session_indicator : (List ℕ → Result (List ℤ)) → List ℕ → Result (List ℕ)
unfolding session_query itoa trimmed_session
get_session_indicator query session =
    first_indicator (query (session_query (trimmed_session session)))

-- What a command hands to db.Exec, and the error that it returns.
pub record Outcome : Type 0 where
  pub executed : List (List ℕ)
  pub failure : Option (List ℕ)

abbrev pub fails : List ℕ → Outcome
fails message = record { executed = []; failure = some message }

abbrev pub removal_of : List (List ℕ) → List (List ℕ)
removal_of [] = []
removal_of (indicator ∷ indicators) =
    (codes "DROP TABLE `" ++ indicator ++ codes "`;")
    ∷ (codes "DELETE FROM `meta` WHERE indicator = '" ++ indicator ++ codes "';")
    ∷ removal_of indicators

abbrev pub remove_all : Result (List (List ℕ)) → Outcome
remove_all (error message) = fails message
remove_all (ok indicators) = record { executed = removal_of indicators; failure = none }

-- The errors of db.Exec are dropped.
unfoldable pub remove : (List ℕ → Result (List (List ℕ))) → List ℕ → Outcome
unfolding get_slice_start_end_range get_start_and_end_range_int get_where_from_range
remove query start_end_range = elim (get_slice_start_end_range start_end_range) [
  | error message ↦ fails message
  | ok slice ↦ elim (get_start_and_end_range_int slice) [
    | error message ↦ fails message
    | ok ints ↦ remove_all (
        query (
          codes "SELECT indicator FROM `meta` WHERE "
          ++ get_where_from_range slice ints.0 ints.1 (codes "meta")
          ++ codes ";"))
  ]
]

abbrev pub check_if_name_is_used : Result (List ℤ) → Option (List ℕ)
check_if_name_is_used (error message) = some message
check_if_name_is_used (ok []) = none
check_if_name_is_used (ok (indicator ∷ rows)) = some (codes "The session name is already in use")

-- `exec` gives the error of db.Exec.
unfoldable pub rename :
    (List ℕ → Result (List ℤ)) → (List ℕ → Option (List ℕ)) → List ℕ → List ℕ → Outcome
unfolding get_session_indicator
rename query exec session new_name = elim (get_session_indicator query session) [
  | error message ↦ fails message
  | ok indicator ↦
      if same_text new_name (codes "meta")
      then fails (codes "Session can't be named meta")
      else elim (check_if_name_is_used
          (query (codes "SELECT indicator FROM meta WHERE name = '" ++ new_name ++ codes "';"))) [
            | some message ↦ fails message
            | none ↦
                let update =
                  codes "UPDATE `meta` SET name='"
                  ++ new_name
                  ++ codes "' WHERE indicator = '"
                  ++ indicator
                  ++ codes "';" in
                record { executed = update ∷ []; failure = exec update }
          ]
]
