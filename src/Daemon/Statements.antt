-- ===== src/Daemon/Statements.antt =====
-- The texts of the statements of daemon/src/sqlite.c, as sprintf builds them. The text of a statement
-- and the NUL behind it must fit the array `query` of its function.
pub mod Buffers
use nhi.Prelude.{ℕ, ◌+◌, List, ◌++◌, Option, none, some, length, leb, codes, if◌then◌else◌}
use nhi.Daemon.Decimal.{decimal}

-- sprintf(query, "%s%ld%s", head, indicator, tail)
unfoldable pub sprintf_once : List ℕ → ℕ → List ℕ → List ℕ
sprintf_once head indicator tail = head ++ (decimal indicator ++ tail)

-- sprintf(query, "%s%ld%s%ld%s", head, indicator, middle, indicator, tail)
unfoldable pub sprintf_twice : List ℕ → ℕ → List ℕ → List ℕ → List ℕ
sprintf_twice head indicator middle tail =
    head ++ (decimal indicator ++ (middle ++ (decimal indicator ++ tail)))

-- sprintf into an array of `size` bytes on the stack. The text and its NUL may run on into the `slack`
-- bytes that the compiler leaves unused behind the array, as it does to align the next variable;
-- a text that runs further has an undefined effect.
abbrev pub into : ℕ → ℕ → List ℕ → Option (List ℕ)
into size slack text = if leb (length text + 1) (size + slack) then some text else none

unfoldable pub create_table_query : ℕ → List ℕ
create_table_query indicator = sprintf_once (codes "CREATE TABLE `") indicator (
    codes
      "` (PS1 TEXT, command TEXT, output BLOB, exit_status TEXT, pwd TEXT, start_time INTEGER, finish_time INTEGER, indicator INTEGER);")

unfoldable pub create_row_query : ℕ → List ℕ
create_row_query indicator =
    sprintf_once (codes "INSERT INTO `") indicator
      (codes "` VALUES (NULL, NULL, '', NULL, NULL, NULL, NULL, NULL);")

unfoldable pub add_ps1_query : ℕ → List ℕ
add_ps1_query indicator =
    sprintf_twice (codes "UPDATE `") indicator
      (codes "` SET PS1=? WHERE rowid = (SELECT MAX(rowid) FROM `") (codes "`);")

unfoldable pub add_command_query : ℕ → List ℕ
add_command_query indicator =
    sprintf_twice (codes "UPDATE `") indicator
      (codes "` SET command=? WHERE rowid = (SELECT MAX(rowid) FROM `") (codes "`);")

unfoldable pub add_output_query : ℕ → List ℕ
add_output_query indicator =
    sprintf_twice (codes "UPDATE `") indicator
      (codes "` SET output=output || ? WHERE rowid = (SELECT MAX(rowid) FROM `") (codes "`);")

unfoldable pub add_exit_status_query : ℕ → List ℕ
add_exit_status_query indicator =
    sprintf_twice (codes "UPDATE `") indicator
      (codes "` SET exit_status=? WHERE rowid = (SELECT MAX(rowid) FROM `") (codes "`);")

unfoldable pub add_pwd_query : ℕ → List ℕ
add_pwd_query indicator =
    sprintf_twice (codes "UPDATE `") indicator
      (codes "` SET pwd=? WHERE rowid = (SELECT MAX(rowid) FROM `") (codes "`);")

unfoldable pub add_start_time_query : ℕ → List ℕ
add_start_time_query indicator =
    sprintf_twice (codes "UPDATE `") indicator
      (codes "` SET start_time=? WHERE start_time is NULL AND rowid = (SELECT MAX(rowid) FROM `")
      (codes "`);")

unfoldable pub add_finish_time_query : ℕ → List ℕ
add_finish_time_query indicator =
    sprintf_twice (codes "UPDATE `") indicator
      (codes "` SET finish_time=? WHERE rowid = (SELECT MAX(rowid) FROM `") (codes "`);")

unfoldable pub add_indicator_query : ℕ → List ℕ
add_indicator_query indicator =
    sprintf_twice (codes "UPDATE `") indicator
      (codes "` SET indicator=? WHERE rowid = (SELECT MAX(rowid) FROM `") (codes "`);")

unfoldable pub meta_create_row_query : List ℕ
meta_create_row_query = codes "INSERT INTO `meta` VALUES (?1, ?2, ?3, NULL);"

unfoldable pub meta_add_finish_time_query : List ℕ
meta_add_finish_time_query = codes "UPDATE `meta` SET finish_time=?1 WHERE indicator=?2;"
