-- ===== src/Tests/Dates.antt =====
-- Times and dates of a calendar with one day.
use stock_market_trading_sim.Common.{
  ℕ, ◌+◌, ◌-◌, ◌*◌, ◌≡◌, refl, false, not, ◌&&◌, Option, some, List, [], ◌∷◌, arith, eqb,
  if◌then◌else◌,
}
use stock_market_trading_sim.Sql.{
  Tm, time_to_string, get_daily_time, get_date_time, two_times_to_string, get_date_id_from_string,
  expired, substr, max_number,
}
use stock_market_trading_sim.Sql.Times.{IsTm, rolled, two_times_to_string_lem}
use stock_market_trading_sim.Sql.Dates.{not_after, calendar, expired-calendar}
use stock_market_trading_sim.Sql.Expiry.{Spells, typed_date-expired}

-- The 31st of March 2025, in every second of which it is a minute to noon.
abbrev that_day : Tm
that_day = record { tm_year = 125; tm_mon = 2; tm_mday = 31; tm_hour = 11; tm_min = 59; tm_sec = 7 }

abbrev always : ℕ → Tm
always seconds = that_day

always-IsTm : (seconds : ℕ) → IsTm (always seconds)
always-IsTm seconds = record {
  mon_lt = omega arith;
  mday_ge = omega arith;
  mday_le = omega arith;
  hour_lt = omega arith;
  min_lt = omega arith;
  sec_lt = omega arith;
}

shown_last_day :
    two_times_to_string (get_date_time always 123) (get_daily_time always 123) ≡ record {
      year = 2025;
      month = 4;
      day = 0;
      hours = 11;
      minutes = 59;
      seconds = 7;
      milliseconds = 123;
    }
unfolding two_times_to_string get_date_time get_daily_time
shown_last_day = refl

two_times_to_string_lem_example :
    two_times_to_string (get_date_time always 123) (get_daily_time always 123)
    ≡ (if eqb 31 31 then rolled (time_to_string always 123) else time_to_string always 123)
two_times_to_string_lem_example = two_times_to_string_lem always always-IsTm 123

expired-calendar_example :
    expired
      (get_date_time always 5)
      (get_daily_time always 5)
      (get_date_time always 9)
      (get_daily_time always 9)
    ≡ (not (eqb (get_date_time always 5) max_number)
        && not_after (calendar that_day 5) (calendar that_day 9))
expired-calendar_example = expired-calendar always always-IsTm 5 9

-- Decimal digits.
abbrev decimal : ℕ → List ℕ → Option ℕ
decimal value [] = some value
decimal value (c ∷ digits) = decimal (value * 10 + (c - 48)) digits

-- "2025-03-31"
abbrev typed : List ℕ
typed = 50 ∷ 48 ∷ 50 ∷ 53 ∷ 45 ∷ 48 ∷ 51 ∷ 45 ∷ 51 ∷ 49 ∷ []

typed-Spells : Spells (decimal 0) typed (time_to_string always 123)
unfolding substr time_to_string
typed-Spells = record { year_eq = refl; month_eq = refl; day_eq = refl }

typed_date-expired_example :
    (get_date_id_from_string (decimal 0) typed ≡ some (get_date_time always 123 + 706831))
    × (expired
          (get_date_time always 123 + 706831)
          0
          (get_date_time always 999)
          (get_daily_time always 999)
        ≡ false)
typed_date-expired_example =
    typed_date-expired always always-IsTm (decimal 0) typed 0 123 999 typed-Spells (omega arith)
