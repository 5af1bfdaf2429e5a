-- ===== src/Cli/Sessions/Tests.antt =====
-- Sessions that are looked up, removed and renamed.
use nhi.Prelude.{◌≡◌, refl, [], ◌∷◌, none, some, codes}
use nhi.Daemon.Decimal.{decimal, digits}
use nhi.Cli.Text.{pos, ok, trim_suffix, split_n, cut, atoi, unsigned, read_digits, itoa}
use nhi.Cli.Range.{get_slice_start_end_range, get_start_and_end_range_int, get_where_from_range}
use nhi.Cli.Sessions.{session_query, get_session_indicator, remove, rename}

-- The last session.
session_query_test :
    session_query (codes "-1")
    ≡ codes "SELECT indicator FROM `meta` ORDER BY rowid DESC LIMIT 1 OFFSET 0;"
unfolding session_query atoi unsigned read_digits decimal digits
session_query_test = refl

-- A session that there is not has the indicator 0.
unknown_session_test : get_session_indicator (λ query. ok []) (codes "{work}") ≡ ok (codes "0")
unfolding get_session_indicator session_query atoi unsigned read_digits itoa decimal digits
    trim_suffix
unknown_session_test = refl

remove_test : remove (λ query. ok (codes "16500000000" ∷ [])) (codes "-1:") ≡ record {
  executed =
      codes "DROP TABLE `16500000000`;"
      ∷ codes "DELETE FROM `meta` WHERE indicator = '16500000000';"
      ∷ [];
  failure = none;
}
unfolding remove get_slice_start_end_range trim_suffix split_n cut get_start_and_end_range_int atoi
    unsigned read_digits decimal digits get_where_from_range
remove_test = refl

used_name_test :
    rename (λ query. ok (pos 5 ∷ [])) (λ update. none) (codes "0") (codes "work")
    ≡ record { executed = []; failure = some (codes "The session name is already in use") }
unfolding rename get_session_indicator session_query atoi unsigned read_digits itoa decimal digits
    trim_suffix
used_name_test = refl
