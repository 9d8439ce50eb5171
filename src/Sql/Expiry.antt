-- ===== src/Sql/Expiry.antt =====
-- Expiry dates that a client types (Src_SQL/utility.cpp, and server.cpp).
use stock_market_trading_sim.Common.{ℕ, ◌+◌, ◌/◌, ◌≤◌, ◌≡◌, false, Option, some, List, arith}
use stock_market_trading_sim.Sql.{
  Tm, Shown, time_to_string, get_daily_time, get_date_time, expired, substr, read_number,
  get_date_id_from_string,
}
use stock_market_trading_sim.Sql.Times.{IsTm}

-- A text whose parts are read as the year, the month and the day that a time is shown with.
pub record Spells (stoi : List ℕ → Option ℕ) (date_str : List ℕ) (s : Shown) : Type 0 where
  pub year_eq : read_number stoi (substr 0 4 date_str) ≡ some s.year
  pub month_eq : read_number stoi (substr 5 2 date_str) ≡ some s.month
  pub day_eq : read_number stoi (substr 8 2 date_str) ≡ some s.day

module _ (localtime : ℕ → Tm) (documented : (seconds : ℕ) → IsTm (localtime seconds))
    (stoi : List ℕ → Option ℕ) where
  -- If `localtime` gives members in their ranges and a text spells the date of some time as it is shown, then the text is read as a date that is 706831 above the encoded date of that time, and an order that is to expire at what was read is not expired at any time of a year at most 1899 years later.
  pub typed_date-expired :
      (date_str : List ℕ) (daily then_ms now_ms : ℕ)
      → Spells stoi date_str (time_to_string localtime then_ms)
      → (localtime (now_ms / 1000)).tm_year ≤ (localtime (then_ms / 1000)).tm_year + 1899
      → (get_date_id_from_string stoi date_str ≡ some (get_date_time localtime then_ms + 706831))
        × (expired
              (get_date_time localtime then_ms + 706831)
              daily
              (get_date_time localtime now_ms)
              (get_daily_time localtime now_ms)
            ≡ false)
  unfolding get_date_id_from_string time_to_string get_date_time expired
  typed_date-expired date_str daily then_ms now_ms h k =
      let x = documented (then_ms / 1000) in
      let y = documented (now_ms / 1000) in
      (
        ground (arith, h.year_eq, h.month_eq, h.day_eq),
        ground (arith, k, x.mday_ge, y.mday_le, y.mon_lt),
      )
