-- ===== src/Sql/Times.antt =====
-- The encoded times of a database row and the text that shows them (Src_SQL/utility.cpp).
use stock_market_trading_sim.Common.{
  ℕ, ◌+◌, ◌*◌, ◌/◌, ◌%◌, ◌<◌, ◌≤◌, ◌≡◌, sym, ap, subst, arith, eqb, eqb_iff, Bool-cases, inl, inr,
  if◌then◌else◌,
}
use stock_market_trading_sim.Sql.{
  Tm, Shown, time_to_string, get_daily_time, get_date_time, two_times_to_string,
}

-- The ranges that the C library documents of the members, seconds without a leap second.
pub record IsTm (t : Tm) : Type 0 where
  pub mon_lt : t.tm_mon < 12
  pub mday_ge : 1 ≤ t.tm_mday
  pub mday_le : t.tm_mday ≤ 31
  pub hour_lt : t.tm_hour < 24
  pub min_lt : t.tm_min < 60
  pub sec_lt : t.tm_sec < 60

-- What is shown of the last day of a month with 31 days: day 0 of the next month.
abbrev pub rolled : Shown → Shown
rolled s = record s {
  year = if eqb s.month 12 then s.year + 1 else s.year;
  month = if eqb s.month 12 then 1 else s.month + 1;
  day = 0;
}

same_shown :
    {a b : Shown}
    → a.year ≡ b.year
    → a.month ≡ b.month
    → a.day ≡ b.day
    → a.hours ≡ b.hours
    → a.minutes ≡ b.minutes
    → a.seconds ≡ b.seconds
    → a.milliseconds ≡ b.milliseconds
    → a ≡ b
same_shown y m d h n s i = cc (y, m, d, h, n, s, i)

-- The parts of a time of the day.
daily_parts :
    (i s m h : ℕ)
    → i < 1000
    → s < 60
    → m < 60
    → let n = i + 1000 * (s + 60 * (m + 60 * h)) in
      (n / 3600000 ≡ h)
      × (n % 3600000 / 60000 ≡ m)
      × (n % 3600000 % 60000 / 1000 ≡ s)
      × (n % 3600000 % 60000 % 1000 ≡ i)
daily_parts i s m h a b c =
    (omega (arith, a, b, c), omega (arith, a, b, c), omega (arith, a, b, c), omega (arith, a, b, c))

-- The parts of a date.
date_parts :
    (d m y : ℕ)
    → d < 31
    → m < 12
    → let n = d + 31 * (m + 12 * y) in (n / 372 ≡ y) × (n % 372 / 31 ≡ m) × (n % 372 % 31 ≡ d)
date_parts d m y a b = (omega (arith, a, b), omega (arith, a, b), omega (arith, a, b))

-- The day 31 is shown as day 0 of what is behind.
last_day_parts :
    (m y : ℕ)
    → m < 12
    → let n = 31 + 31 * (m + 12 * y) in
      (n / 372 + 1900 ≡ (if eqb (m + 1) 12 then y + 1900 + 1 else y + 1900))
      × (n % 372 / 31 + 1 ≡ (if eqb (m + 1) 12 then 1 else m + 1 + 1))
      × (n % 372 % 31 ≡ 0)
last_day_parts m y h = elim (Bool-cases (eqb (m + 1) 12)) [
  | inl k ↦
      let last = (eqb_iff (m + 1) 12).0 k in
      rw k (omega (arith, last), omega (arith, last), omega (arith, last))
  | inr k ↦
      let below : m < 11 = ground (arith, h, k) in
      rw k (omega (arith, below), omega (arith, below), omega (arith, below))
]

module _ (localtime : ℕ → Tm) (documented : (seconds : ℕ) → IsTm (localtime seconds)) where
  -- A time that is encoded as a date and a time of the day is shown as it was, unless its day is the 31st; then it is shown as day 0 of the month behind, or of January of the year behind.
  pub two_times_to_string_lem :
      (time_ms : ℕ)
      → two_times_to_string (get_date_time localtime time_ms) (get_daily_time localtime time_ms) ≡ (
          if eqb (localtime (time_ms / 1000)).tm_mday 31
          then rolled (time_to_string localtime time_ms)
          else time_to_string localtime time_ms)
  unfolding two_times_to_string get_date_time get_daily_time time_to_string
  two_times_to_string_lem time_ms =
      let now_tm = localtime (time_ms / 1000) in
      let t = documented (time_ms / 1000) in
      let (h, n, c, i) =
        daily_parts (time_ms % 1000) now_tm.tm_sec now_tm.tm_min now_tm.tm_hour (omega arith)
          t.sec_lt t.min_lt in
      elim (Bool-cases (eqb now_tm.tm_mday 31)) [
        | inr k ↦
            let (y, m, d) =
              date_parts now_tm.tm_mday now_tm.tm_mon now_tm.tm_year (ground (arith, t.mday_le, k))
                t.mon_lt in
            rw k (same_shown (ap (λ x. x + 1900) y) (ap (λ x. x + 1) m) d h n c i)
        | inl k ↦
            let (y, m, d) = last_day_parts now_tm.tm_mon now_tm.tm_year t.mon_lt in
            rw k (
              subst
                (λ x.
                  let date = x + 31 * (now_tm.tm_mon + 12 * now_tm.tm_year) in
                  two_times_to_string date (get_daily_time localtime time_ms)
                  ≡ rolled (time_to_string localtime time_ms))
                (sym ((eqb_iff now_tm.tm_mday 31).0 k)) (same_shown y m d h n c i))
      ]
