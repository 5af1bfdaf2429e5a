-- ===== src/Daemon/Clock.antt =====
-- `get_indicator` of daemon/src/utils.c. Times are after the epoch and far from the end of a `long`.
use nhi.Prelude.{ℕ, ◌+◌, ◌*◌, ◌/◌, ◌<◌, ◌≤◌, arith}

-- What gettimeofday fills in.
pub record Timeval : Type 0 where
  pub tv_sec : ℕ
  pub tv_usec : ℕ

-- Deciseconds since the epoch.
unfoldable pub get_indicator : Timeval → ℕ
get_indicator now = now.tv_sec * 10 + now.tv_usec / 100000

abbrev pub microseconds : Timeval → ℕ
microseconds now = now.tv_sec * 1000000 + now.tv_usec

-- Of two times that gettimeofday can give, the earlier has the indicator that is smaller or the
-- same, and the indicators differ once the times are a tenth of a second apart.
pub get_indicator_order :
    (now later : Timeval)
    → now.tv_usec < 1000000
    → later.tv_usec < 1000000
    → microseconds now ≤ microseconds later
    → (get_indicator now ≤ get_indicator later)
      × (microseconds now + 100000 ≤ microseconds later → get_indicator now < get_indicator later)
unfolding get_indicator
get_indicator_order now later a b h = (omega arith, λ far. omega arith)
