-- ===== src/Daemon/Log.antt =====
-- `write_log` of daemon/src/utils.c: the line that a message becomes in /tmp/nhi.log.
use nhi.Prelude.{
  ℕ, ◌+◌, ◌/◌, ◌%◌, ◌<◌, ◌≡◌, List, [], ◌∷◌, ◌++◌, arith, length, length-append, codes,
}
use nhi.Daemon.Decimal.{decimal, length-decimal_four}

-- What localtime gives; no field is negative.
pub record Tm : Type 0 where
  pub tm_year : ℕ
  pub tm_mon : ℕ
  pub tm_mday : ℕ
  pub tm_hour : ℕ
  pub tm_min : ℕ
  pub tm_sec : ℕ

-- %02d, for a number below 100
abbrev pub two_digits : ℕ → List ℕ
two_digits n = (48 + n / 10) ∷ (48 + n % 10) ∷ []

-- sprintf(date, "%d-%02d-%02d %02d:%02d:%02d", …)
unfoldable pub date_of : Tm → List ℕ
date_of tm =
    decimal (tm.tm_year + 1900)
    ++ (b'-' ∷ two_digits (tm.tm_mon + 1)
        ++ (b'-' ∷ two_digits tm.tm_mday
            ++ (b' ' ∷ two_digits tm.tm_hour
                ++ (b':' ∷ two_digits tm.tm_min ++ (b':' ∷ two_digits tm.tm_sec)))))

-- dprintf(fd, "%s | %s\n", date, message)
unfoldable pub log_line : Tm → List ℕ → List ℕ
unfolding date_of
log_line tm message = date_of tm ++ (codes " | " ++ (message ++ 10 ∷ []))

-- For the years 1900 to 9999 the date and the NUL behind it fill the 20 bytes that are allocated
-- exactly.
pub date_of_fits : (tm : Tm) → tm.tm_year + 1900 < 10000 → length (date_of tm) + 1 ≡ 20
unfolding date_of
date_of_fits tm h = omega (
  arith,
  length-decimal_four (tm.tm_year + 1900) (omega arith) h,
  length-append (decimal (tm.tm_year + 1900)) (
      b'-' ∷ two_digits (tm.tm_mon + 1)
      ++ (b'-' ∷ two_digits tm.tm_mday
          ++ (b' ' ∷ two_digits tm.tm_hour
              ++ (b':' ∷ two_digits tm.tm_min ++ (b':' ∷ two_digits tm.tm_sec))))),
)
