-- ===== src/Cli/Range.antt =====
-- GetSliceStartEndRange, GetStartAndEndRangeInt, GetWhereFromRange and GetRowidsFromRange of
-- pkg/utils/gets.go. A slice of two texts is a pair, and `billion` is what the callers give for it.
pub mod Laws
use nhi.Prelude.{
  ℕ, suc, ◌-◌, Bool, true, false, ◌&&◌, List, [], ◌∷◌, ◌++◌, Option, none, some, codes, ◌==◌,
  if◌then◌else◌,
}
use nhi.Daemon.Decimal.{decimal}
use nhi.Cli.Text.{
  ℤ, pos, negsuc, lt, is, Result, ok, error, trim_prefix, trim_suffix, split_n, atoi, itoa,
}

abbrev pub billion : ℕ
billion = 1000000000

abbrev pub or_default : List ℕ → List ℕ → List ℕ
or_default default [] = default
or_default default (c ∷ s) = c ∷ s

abbrev pub start_and_end : List (List ℕ) → Result (List ℕ × List ℕ)
start_and_end (a ∷ b ∷ []) = ok (or_default (codes "0") a, or_default (decimal (billion - 1)) b)
start_and_end _ = error (codes "Please specify range properly")

unfoldable pub get_slice_start_end_range : List ℕ → Result (List ℕ × List ℕ)
unfolding trim_suffix split_n
get_slice_start_end_range start_end_range =
    start_and_end (split_n b':' 2 (trim_suffix b'}' (trim_prefix b'{' start_end_range)))

unfoldable pub get_start_and_end_range_int : List ℕ × List ℕ → Result (ℤ × ℤ)
unfolding atoi
get_start_and_end_range_int (start, end) = elim (atoi start) [
  | none ↦ error (codes "Start range is not a number")
  | some start_int ↦ elim (atoi end) [
    | none ↦ error (codes "End range is not a number")
    | some end_int ↦ ok (start_int, end_int)
  ]
]

abbrev pub zero_int : ℤ
zero_int = pos 0

-- The row that stands so many rows before the last one, or behind the first one.
abbrev pub offset_from_end : List ℕ → ℤ → List ℕ
offset_from_end table (pos n) = itoa (pos n)
offset_from_end table (negsuc n) =
    codes "(SELECT rowid FROM `"
    ++ table
    ++ codes "` ORDER BY rowid DESC LIMIT 1 OFFSET "
    ++ decimal n
    ++ codes ")"

abbrev pub offset_from_start : List ℕ → List ℕ → List ℕ
offset_from_start table offset =
    codes "(SELECT rowid FROM `" ++ table ++ codes "` LIMIT 1 OFFSET " ++ offset ++ codes ")"

abbrev pub get_rowids_from_range : List ℕ × List ℕ → ℤ → ℤ → List ℕ → List ℕ × List ℕ
get_rowids_from_range (start, end) start_int end_int table = (
  if lt start_int zero_int
      then offset_from_end table start_int
      else if lt start_int (pos billion)
      then offset_from_start table start
      else [],
  if lt end_int zero_int
      then offset_from_end table end_int
      else if lt end_int (pos billion)
      then (if is end_int (billion - 1) then end else offset_from_start table end)
      else [],
)

unfoldable pub get_where_from_range : List ℕ × List ℕ → ℤ → ℤ → List ℕ → List ℕ
get_where_from_range (start, end) start_int end_int table =
    let rowids = get_rowids_from_range (start, end) start_int end_int table in
    if lt start_int (pos billion) && lt end_int (pos billion)
    then codes "rowid >= " ++ rowids.0 ++ codes " AND rowid < " ++ rowids.1
    else if lt start_int (pos billion)
    then codes "rowid >= " ++ rowids.0 ++ codes " AND indicator <= " ++ end
    else if lt end_int (pos billion)
    then codes "indicator >= " ++ start ++ codes " AND rowid < " ++ rowids.1
    else codes "indicator >= " ++ start ++ codes " AND indicator <= " ++ end
