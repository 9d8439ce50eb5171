-- ===== src/Sql/Dates.antt =====
-- Encoded times compare as calendar times do (Src_SQL/utility.cpp, and the check of server.cpp).
use stock_market_trading_sim.Common.{
  ℕ, ◌+◌, ◌*◌, ◌/◌, ◌%◌, ◌<◌, ◌≤◌, ◌≡◌, refl, ap, Bool, true, false, not, ◌&&◌, ◌||◌, List, [], ◌∷◌,
  arith, eqb, ltb, leb,
}
use stock_market_trading_sim.Sql.{Tm, get_daily_time, get_date_time, max_number, expired}
use stock_market_trading_sim.Sql.Times.{IsTm}

-- The earlier of two times by their digits, the highest first, or the same.
abbrev pub not_after : List ℕ → List ℕ → Bool
not_after (a ∷ first) (b ∷ second) = ltb a b || (eqb a b && not_after first second)
not_after _ _ = true

-- The digits of a time.
abbrev pub calendar : Tm → ℕ → List ℕ
calendar t i = t.tm_year ∷ t.tm_mon ∷ t.tm_mday ∷ t.tm_hour ∷ t.tm_min ∷ t.tm_sec ∷ i ∷ []

-- An encoded date is compared by year, month and day, for days from 1 to 31.
date_less :
    (d m y d' m' y' : ℕ)
    → m < 12
    → m' < 12
    → 1 ≤ d
    → d ≤ 31
    → 1 ≤ d'
    → d' ≤ 31
    → ltb (d + 31 * (m + 12 * y)) (d' + 31 * (m' + 12 * y'))
      ≡ (ltb y y' || (eqb y y' && (ltb m m' || (eqb m m' && ltb d d'))))
date_less d m y d' m' y' a b c e f g = ground (arith, a, b, c, e, f, g)

date_same :
    (d m y d' m' y' : ℕ)
    → m < 12
    → m' < 12
    → 1 ≤ d
    → d ≤ 31
    → 1 ≤ d'
    → d' ≤ 31
    → eqb (d + 31 * (m + 12 * y)) (d' + 31 * (m' + 12 * y')) ≡ (eqb y y' && (eqb m m' && eqb d d'))
date_same d m y d' m' y' a b c e f g = ground (arith, a, b, c, e, f, g)

daily_not_after :
    (i s m h i' s' m' h' : ℕ)
    → i < 1000
    → s < 60
    → m < 60
    → i' < 1000
    → s' < 60
    → m' < 60
    → leb (i + 1000 * (s + 60 * (m + 60 * h))) (i' + 1000 * (s' + 60 * (m' + 60 * h')))
      ≡ not_after (h ∷ m ∷ s ∷ i ∷ []) (h' ∷ m' ∷ s' ∷ i' ∷ [])
daily_not_after i s m h i' s' m' h' a b c e f g = ground (arith, a, b, c, e, f, g)

nested :
    (p q r s t u v : Bool)
    → ((p || (q && (r || (s && t)))) || ((q && (s && u)) && v))
      ≡ (p || (q && (r || (s && (t || (u && v))))))
nested true q r s t u v = refl
nested false false r s t u v = refl
nested false true true s t u v = refl
nested false true false false t u v = refl
nested false true false true t u v = refl

module _ (localtime : ℕ → Tm) (documented : (seconds : ℕ) → IsTm (localtime seconds)) where
  -- If the C library's `localtime` gives members in their ranges, an order that expires at an encoded time, other than the date that means never, is expired at another encoded time exactly if its time is not after that time in the calendar: by year, month, day, hour, minute, second and millisecond.
  pub expired-calendar :
      (then_ms now_ms : ℕ)
      → expired
          (get_date_time localtime then_ms)
          (get_daily_time localtime then_ms)
          (get_date_time localtime now_ms)
          (get_daily_time localtime now_ms)
        ≡ (not (eqb (get_date_time localtime then_ms) max_number)
            && not_after
                (calendar (localtime (then_ms / 1000)) (then_ms % 1000))
                (calendar (localtime (now_ms / 1000)) (now_ms % 1000)))
  unfolding expired get_date_time get_daily_time
  expired-calendar then_ms now_ms =
      let a = localtime (then_ms / 1000) in
      let b = localtime (now_ms / 1000) in
      let x = documented (then_ms / 1000) in
      let y = documented (now_ms / 1000) in
      ap (λ z. not (eqb (get_date_time localtime then_ms) max_number) && z)
        (cc (
          date_less a.tm_mday a.tm_mon a.tm_year b.tm_mday b.tm_mon b.tm_year x.mon_lt y.mon_lt
              x.mday_ge x.mday_le y.mday_ge y.mday_le,
          date_same a.tm_mday a.tm_mon a.tm_year b.tm_mday b.tm_mon b.tm_year x.mon_lt y.mon_lt
              x.mday_ge x.mday_le y.mday_ge y.mday_le,
          daily_not_after (then_ms % 1000) a.tm_sec a.tm_min a.tm_hour (now_ms % 1000) b.tm_sec
              b.tm_min b.tm_hour (omega arith) x.sec_lt x.min_lt (omega arith) y.sec_lt y.min_lt,
          nested (ltb a.tm_year b.tm_year) (eqb a.tm_year b.tm_year) (ltb a.tm_mon b.tm_mon)
              (eqb a.tm_mon b.tm_mon) (ltb a.tm_mday b.tm_mday) (eqb a.tm_mday b.tm_mday)
              (not_after (a.tm_hour ∷ a.tm_min ∷ a.tm_sec ∷ (then_ms % 1000) ∷ [])
                (b.tm_hour ∷ b.tm_min ∷ b.tm_sec ∷ (now_ms % 1000) ∷ [])),
        ))
