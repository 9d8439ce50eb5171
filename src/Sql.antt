-- ===== src/Sql.antt =====
-- Src_SQL: the first version of the market, whose state is in a database. Here are the times of
-- utility.cpp and the test of the expiry of waiting orders of server.cpp; the children have the proofs
-- about these, and the tables, the accounts, the books and the watcher.
pub mod Times
pub mod Dates
pub mod Expiry
pub mod Database
pub mod Client
pub mod Market
pub mod Trading
pub mod Loops
pub mod Watcher
pub mod Supply
pub mod Tables
pub mod Transactions
pub mod Effects
pub mod Resting
pub mod Rounds
pub mod Quantities
pub mod Sweeping
pub mod Ending
pub mod Priority
pub mod Invariant
pub mod Continuous
pub mod Fixing
pub mod Places
pub mod Entering
pub mod Settlement
pub mod Shares
pub mod Reach
pub mod Waiting
pub mod Watching
pub mod Passes
use stock_market_trading_sim.Common.{
  ℕ, ◌+◌, ◌-◌, ◌*◌, ◌/◌, ◌%◌, Bool, true, false, not, ◌&&◌, ◌||◌, Option, none, some, List, take,
  drop, length, arith, ltb, leb, eqb, if◌then◌else◌,
}

-- `std::tm`: years since 1900 and months since January.
pub record Tm : Type 0 where
  pub tm_year : ℕ
  pub tm_mon : ℕ
  pub tm_mday : ℕ
  pub tm_hour : ℕ
  pub tm_min : ℕ
  pub tm_sec : ℕ

-- The numbers that a time is printed as: "%04d-%02d-%02d %02d:%02d:%02d.%03d".
pub record Shown : Type 0 where
  pub year : ℕ
  pub month : ℕ
  pub day : ℕ
  pub hours : ℕ
  pub minutes : ℕ
  pub seconds : ℕ
  pub milliseconds : ℕ

-- The constants of utility.hpp.
abbrev pub ms_in_s : ℕ
ms_in_s = 1000

abbrev pub s_in_m : ℕ
s_in_m = 60

abbrev pub ms_in_m : ℕ
ms_in_m = 60000

abbrev pub m_in_h : ℕ
m_in_h = 60

abbrev pub ms_in_h : ℕ
ms_in_h = 3600000

abbrev pub d_in_m : ℕ
d_in_m = 31

abbrev pub m_in_y : ℕ
m_in_y = 12

abbrev pub max_number : ℕ
max_number = 65535

-- `localtime` is the C library's, on seconds since the epoch.
module _ (localtime : ℕ → Tm) where
  unfoldable pub time_to_string : ℕ → Shown
  time_to_string time_ms =
      let now_tm = localtime (time_ms / ms_in_s) in
      record {
        year = now_tm.tm_year + 1900;
        month = now_tm.tm_mon + 1;
        day = now_tm.tm_mday;
        hours = now_tm.tm_hour;
        minutes = now_tm.tm_min;
        seconds = now_tm.tm_sec;
        milliseconds = time_ms % ms_in_s;
      }

  unfoldable pub get_daily_time : ℕ → ℕ
  get_daily_time time_ms =
      let now_tm = localtime (time_ms / ms_in_s) in
      time_ms % ms_in_s
      + ms_in_s * (now_tm.tm_sec + s_in_m * (now_tm.tm_min + m_in_h * now_tm.tm_hour))

  unfoldable pub get_date_time : ℕ → ℕ
  get_date_time time_ms =
      let now_tm = localtime (time_ms / ms_in_s) in
      now_tm.tm_mday + d_in_m * (now_tm.tm_mon + m_in_y * now_tm.tm_year)

unfoldable pub two_times_to_string : ℕ → ℕ → Shown
two_times_to_string date_time daily_time =
    let in_hour = daily_time % ms_in_h in
    let in_minute = in_hour % ms_in_m in
    let in_year = date_time % (d_in_m * m_in_y) in
    record {
      year = date_time / (d_in_m * m_in_y) + 1900;
      month = in_year / d_in_m + 1;
      day = in_year % d_in_m;
      hours = daily_time / ms_in_h;
      minutes = in_hour / ms_in_m;
      seconds = in_minute / ms_in_s;
      milliseconds = in_minute % ms_in_s;
    }

-- `substr`, whose exception is `none`, on the characters of a string.
unfoldable pub substr : ℕ → ℕ → List ℕ → Option (List ℕ)
substr from count text = if ltb (length text) from then none else some (take count (drop from text))

abbrev pub read_number : (List ℕ → Option ℕ) → Option (List ℕ) → Option ℕ
read_number stoi none = none
read_number stoi (some digits) = stoi digits

infixl 20 ◌>>=◌
abbrev pub ◌>>=◌ : {A : Type 0} {B : Type 0} → Option A → (A → Option B) → Option B
none >>= next = none
some a >>= next = next a

-- `stoi` is the C++ library's, on the digits that these functions give it; `none` is an exception.
module _ (stoi : List ℕ → Option ℕ) where
  unfoldable pub get_date_id_from_string : List ℕ → Option ℕ
  get_date_id_from_string date_str = do
    year ← read_number stoi (substr 0 4 date_str)
    month ← read_number stoi (substr 5 2 date_str)
    day ← read_number stoi (substr 8 2 date_str)
    some (day + d_in_m * (month + m_in_y * year))

  unfoldable pub get_daily_id_from_string : List ℕ → Option ℕ
  get_daily_id_from_string time_str = do
    hour ← read_number stoi (substr 0 2 time_str)
    minute ← read_number stoi (substr 3 2 time_str)
    second ← read_number stoi (substr 6 2 time_str)
    millisecond ← read_number stoi (substr 9 3 time_str)
    some (millisecond + ms_in_s * (second + s_in_m * (minute + m_in_h * hour)))

-- The expiration check of `trigger_and_expiration_watcher`.
unfoldable pub expired : ℕ → ℕ → ℕ → ℕ → Bool
expired expiration_date expiration_daily now_date now_daily =
    not (eqb expiration_date max_number)
    && (ltb expiration_date now_date
        || (eqb expiration_date now_date && leb expiration_daily now_daily))
