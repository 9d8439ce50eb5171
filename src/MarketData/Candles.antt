-- ===== src/MarketData/Candles.antt =====
-- What every trade keeps of the market data (Src_Simulation/src/market_data.cpp).
use stock_market_trading_sim.Common.{
  ℕ, ◌+◌, ◌≡◌, refl, sym, subst, Bool, true, false, Option, some, List, [], ◌∷◌, arith, All, sum_by,
  either, if◌then◌else◌, value_or,
}
use stock_market_trading_sim.Common.Int.{same_ℤ}
use stock_market_trading_sim.Common.Keys.{◌==◌, symbol_key}
use stock_market_trading_sim.Common.Maps.{lookup, get_or, lookup-insert}
use stock_market_trading_sim.Double.{Double, IsOrdered}
use stock_market_trading_sim.Types.{Symbol, TimePoint, Trade}
use stock_market_trading_sim.Notification.{Event}
use stock_market_trading_sim.MarketData.{
  MarketData, SymbolState, Candle, empty_state, first_candle, widened, add_to_candles, trade_state,
  on_trade, on_event, bucket_start_of,
}

-- What the new value and the old entry have, the entry has after the new value is stored.
stored :
    {A : Type 0} (Q : A → Type 0) (b : Bool) (x y : A) (o : Option A)
    → Q x
    → Q (value_or o y)
    → Q (value_or (if b then some x else o) y)
stored Q true x y o p q = p
stored Q false x y o p q = q

module _ {P : Type 0} ⦃d : Double P⦄ where
  -- The opening and the closing price lie in the candle's range.
  pub record IsCandle (c : Candle P) : Type 0 where
    pub range : d.lt c.high c.low ≡ false
    pub open_high : d.lt c.high c.opening ≡ false
    pub open_low : d.lt c.opening c.low ≡ false
    pub close_high : d.lt c.high c.close ≡ false
    pub close_low : d.lt c.close c.low ≡ false

  -- The newest candle closes at the last price.
  abbrev pub ClosesAt : P → List (Candle P) → Type 0
  ClosesAt p [] = Unit
  ClosesAt p (c ∷ candles) = c.close ≡ p

  abbrev pub candle_volume : Candle P → ℕ
  candle_volume c = c.volume

  pub record IsTracked (s : SymbolState P) : Type 0 where
    pub candles_ok : All IsCandle s.candles
    pub volume_eq : sum_by candle_volume s.candles ≡ s.total_volume
    pub closes : ClosesAt s.last_price s.candles

  module _ (laws : IsOrdered P) where
    first-IsCandle : (start : TimePoint) (t : Trade P) → IsCandle (first_candle start t)
    first-IsCandle start t = ground (arith, laws.lt_irrefl t.price)

    widened-IsCandle : (t : Trade P) (c : Candle P) → IsCandle c → IsCandle (widened t c)
    widened-IsCandle t c v = ground (
      arith,
      laws.lt_irrefl t.price,
      laws.lt_trans c.high t.price c.opening,
      laws.lt_trans c.opening t.price c.low,
    )

    add_to_candles-All :
        (start : TimePoint) (t : Trade P) (cs : List (Candle P))
        → All IsCandle cs
        → All IsCandle (add_to_candles start t cs)
    unfolding add_to_candles
    add_to_candles-All start t [] a = (first-IsCandle start t, a)
    add_to_candles-All start t (c ∷ cs) (v, vs) =
        either (All IsCandle) (same_ℤ c.bucket_start start) (widened-IsCandle t c v, vs)
          (first-IsCandle start t, (v, vs))

  add_to_candles-volume :
      (start : TimePoint) (t : Trade P) (cs : List (Candle P))
      → sum_by candle_volume (add_to_candles start t cs) ≡ sum_by candle_volume cs + t.quantity
  unfolding add_to_candles
  add_to_candles-volume start t [] = ground arith
  add_to_candles-volume start t (c ∷ cs) = ground arith

  add_to_candles-ClosesAt :
      (start : TimePoint) (t : Trade P) (cs : List (Candle P))
      → ClosesAt t.price (add_to_candles start t cs)
  unfolding add_to_candles
  add_to_candles-ClosesAt start t [] = refl
  add_to_candles-ClosesAt start t (c ∷ cs) =
      either (ClosesAt t.price) (same_ℤ c.bucket_start start) refl refl

  trade_state-IsTracked :
      (laws : IsOrdered P) (size : ℕ) (t : Trade P) (s : SymbolState P)
      → IsTracked s
      → IsTracked (trade_state size t s)
  unfolding trade_state
  trade_state-IsTracked laws size t s v = record {
    candles_ok = add_to_candles-All laws _ t s.candles v.candles_ok;
    volume_eq =
        omega (
          arith,
          add_to_candles-volume (bucket_start_of size t.timestamp) t s.candles,
          v.volume_eq,
        );
    closes = add_to_candles-ClosesAt _ t s.candles;
  }

  -- Every symbol's state is tracked.
  unfoldable pub MarketTracked : MarketData P → Type 0
  MarketTracked m = (s : Symbol) → IsTracked (get_or s empty_state m.state)

  -- A trade event keeps, for every symbol, that the opening and closing prices of each candle lie in its range, that the candles' volumes add up to the total volume, and that the newest candle closes at the last price.
  pub on_event-MarketTracked :
      (laws : IsOrdered P) (ev : Event P) (m : MarketData P)
      → MarketTracked m
      → MarketTracked (on_event ev m)
  unfolding on_event on_trade get_or MarketTracked
  on_event-MarketTracked laws (Event.trade_event t) m h = λ s.
      subst (λ o. IsTracked (value_or o empty_state)) (sym (lookup-insert t.symbol s _ m.state))
        (stored IsTracked (t.symbol == s) _ empty_state (lookup s m.state)
          (trade_state-IsTracked laws m.bucket_size t _ (h t.symbol)) (h s))
  on_event-MarketTracked laws (Event.order_rejected_event id c r) m h = h
  on_event-MarketTracked laws (Event.order_accepted_event id c r) m h = h
  on_event-MarketTracked laws (Event.order_queued_event id c r) m h = h
  on_event-MarketTracked laws (Event.order_expired_event id c r) m h = h
