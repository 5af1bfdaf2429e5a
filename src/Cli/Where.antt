-- ===== src/Cli/Where.antt =====
-- getWhere of pkg/fetch/fetch.go: the condition of the query for the rows of a session.
pub mod Laws
use nhi.Prelude.{
  ℕ, suc, ◌-◌, ◌≡◌, Bool, true, false, not, ◌&&◌, ◌||◌, List, [], ◌∷◌, ◌++◌, Option, none, some,
  codes, ◌==◌, length, take, drop, leb, same_text, if◌then◌else◌,
}
use nhi.Cli.Text.{ℤ, pos, lt, Result, ok, error, trim_suffix, split_n, atoi, itoa}
use nhi.Cli.Range.{billion}

abbrev pub max_rowid : List ℕ → List ℕ → List ℕ
max_rowid offset indicator =
    codes "(SELECT max(rowid)+" ++ offset ++ codes " FROM `" ++ indicator ++ codes "`)"

-- The part for the range, which `where` holds at first.
unfoldable pub range_where : List ℕ × List ℕ → ℤ → ℤ → List ℕ → List ℕ
range_where (start, end) start_int end_int indicator =
    if lt start_int (pos billion) && lt end_int (pos billion)
    then (if lt start_int (pos 0) && lt end_int (pos 0)
        then codes "rowid >= "
          ++ max_rowid start indicator
          ++ codes " AND rowid < "
          ++ max_rowid end indicator
        else if lt start_int (pos 0)
        then codes "rowid >= " ++ max_rowid start indicator ++ codes " AND rowid <= " ++ end
        else if lt end_int (pos 0)
        then codes "rowid > " ++ start ++ codes " AND rowid < " ++ max_rowid end indicator
        else codes "rowid > " ++ start ++ codes " AND rowid <= " ++ end)
    else if lt start_int (pos billion)
    then (if lt start_int (pos 0)
        then codes "rowid >= " ++ max_rowid start indicator ++ codes " AND indicator <= " ++ end
        else codes "rowid > " ++ start ++ codes " AND indicator <= " ++ end)
    else if lt end_int (pos billion)
    then (if lt end_int (pos 0)
        then codes "indicator >= " ++ start ++ codes " AND rowid < " ++ max_rowid end indicator
        else codes "indicator >= " ++ start ++ codes " AND rowid <= " ++ end)
    else codes "indicator >= " ++ start ++ codes " AND indicator <= " ++ end

-- With an exit status, `where` is assigned anew.
unfoldable pub exit_status_where : List ℕ → List ℕ → List ℕ
exit_status_where [] clause = clause
exit_status_where (c ∷ status) clause =
    if leb 3 (length (c ∷ status)) && same_text (take 3 (c ∷ status)) (codes "not")
    then codes "exit_status != '" ++ drop 3 (c ∷ status) ++ codes "'"
    else codes "exit_status = '" ++ (c ∷ status) ++ codes "'"

unfoldable pub directory_where : List ℕ → List ℕ → List ℕ
unfolding trim_suffix
directory_where [] clause = clause
directory_where (c ∷ directory) clause =
    let root = same_text (c ∷ directory) (codes "/") || same_text (c ∷ directory) (codes "//") in
    let trimmed = if root then c ∷ directory else trim_suffix b'/' (c ∷ directory) in
    clause ++ codes " AND pwd = '" ++ trimmed ++ codes "'"

-- The arguments of time.Date: year, month, day, hour, minute and second.
pub record Date : Type 0 where
  pub year : ℤ
  pub month : ℤ
  pub day : ℤ
  pub hour : ℤ
  pub minute : ℤ
  pub second : ℤ

unfoldable pub number {ℓ} : {A : Type ℓ} → List ℕ → List ℕ → (ℤ → Result A) → Result A
unfolding atoi
number s message continue = elim (atoi s) [ none ↦ error message | some z ↦ continue z ]

-- The message for a part of what follows the option `word`.
abbrev pub please_specify : List ℕ → List ℕ → List ℕ
please_specify word part =
    codes "Please specify " ++ word ++ codes " " ++ part ++ codes " correctly"

abbrev pub three {ℓ} :
    {A : Type ℓ} → List (List ℕ) → List ℕ → (List ℕ → List ℕ → List ℕ → Result A) → Result A
three (a ∷ b ∷ d ∷ []) message continue = continue a b d
three _ message continue = error message

-- A date and a time behind --before, and behind --after, which is the second block of the same code.
unfoldable pub parse_date : List ℕ → List ℕ → Result Date
unfolding split_n number
parse_date word s = elim (split_n b' ' 2 s) [
  | (date ∷ time ∷ []) ↦ three (split_n b'-' 3 date) (please_specify word (codes "date")) (λ y mo d.
      number y (please_specify word (codes "year")) (λ year.
        number mo (please_specify word (codes "month")) (λ month.
          number d (please_specify word (codes "day")) (λ day.
            three (split_n b':' 3 time) (please_specify word (codes "time")) (λ h mi s.
              number h (please_specify word (codes "hour")) (λ hour.
                number mi (please_specify word (codes "minute")) (λ minute.
                  number s (please_specify word (codes "second")) (λ second. ok record {
                    year = year;
                    month = month;
                    day = day;
                    hour = hour;
                    minute = minute;
                    second = second;
                  }))))))))
  | _ ↦ error (please_specify word (codes "date and time"))
]

unfoldable pub start_time_where : List ℕ → ℤ → List ℕ
unfolding itoa
start_time_where comparison time =
    codes " AND start_time " ++ comparison ++ codes " '" ++ itoa time ++ codes "'"

-- What Unix() gives for a date in the local zone.
module _ (unix : Date → ℤ) where
  abbrev pub date_where : List ℕ → List ℕ → List ℕ → List ℕ → Result (List ℕ)
  unfolding parse_date start_time_where
  date_where word comparison [] clause = ok clause
  date_where word comparison (c ∷ s) clause = elim (parse_date word (c ∷ s)) [
    | error message ↦ error message
    | ok date ↦ ok (clause ++ start_time_where comparison (unix date))
  ]

  abbrev pub and_date : List ℕ → List ℕ → List ℕ → Result (List ℕ) → Result (List ℕ)
  and_date word comparison s (error message) = error message
  and_date word comparison s (ok clause) = date_where word comparison s clause

  unfoldable pub get_where :
      List ℕ × List ℕ → ℤ → ℤ → List ℕ → List ℕ → List ℕ → List ℕ → List ℕ → Result (List ℕ)
  unfolding range_where exit_status_where directory_where date_where
  get_where slice start_int end_int indicator exit_status directory before after =
      and_date (codes "after") (codes ">") after (
        date_where (codes "before") (codes "<") before (
          directory_where directory
            (exit_status_where exit_status (range_where slice start_int end_int indicator))))
