-- ===== src/MarketData.antt =====
-- Src_Simulation/include/market_data.hpp and src/market_data.cpp: candles and running totals, built
-- from the trade events. The newest candle, the back of the source's vector, is the head of the list.
pub mod Candles
use stock_market_trading_sim.Common.{
  ℕ, ◌+◌, ◌*◌, ◌/◌, ◌<◌, Bool, true, false, Option, none, some, List, [], ◌∷◌, take, eqb,
  if◌then◌else◌,
}
use mathlib.Core.List.{reverse}
use stock_market_trading_sim.Common.Int.{ℤ, pos, sub_ℕ, pos_part, neg_part, same_ℤ}
use stock_market_trading_sim.Common.Keys.{symbol_key}
use stock_market_trading_sim.Common.Maps.{Map, lookup, insert, get_or}
use stock_market_trading_sim.Double.{Double}
use stock_market_trading_sim.Types.{Symbol, TimePoint, Trade}
use stock_market_trading_sim.Notification.{Event}

pub record Candle (P : Type 0) : Type 0 where
  pub bucket_start : TimePoint
  pub opening : P
  pub high : P
  pub low : P
  pub close : P
  pub volume : ℕ

pub record SymbolState (P : Type 0) : Type 0 where
  pub last_price : P
  pub total_volume : ℕ
  pub cumulative_notional : P
  pub candles : List (Candle P)

-- `bucket_size_` in ticks of the clock, and the state of each symbol.
pub record MarketData (P : Type 0) : Type 0 where
  pub bucket_size : ℕ
  pub state : Map Symbol (SymbolState P)

-- The start of the window that a time falls into; the division is towards zero.
unfoldable pub bucket_start_of : ℕ → TimePoint → TimePoint
bucket_start_of size t = sub_ℕ (pos_part t / size * size) (neg_part t / size * size)

module _ {P : Type 0} ⦃d : Double P⦄ where
  abbrev pub empty_state : SymbolState P
  empty_state = record {
    last_price = d.ratio 0 1;
    total_volume = 0;
    cumulative_notional = d.ratio 0 1;
    candles = [];
  }

  -- `std::max` and `std::min`
  abbrev pub max_price : P → P → P
  max_price a b = if d.lt a b then b else a

  abbrev pub min_price : P → P → P
  min_price a b = if d.lt b a then b else a

  abbrev pub first_candle : TimePoint → Trade P → Candle P
  first_candle start t = record {
    bucket_start = start;
    opening = t.price;
    high = t.price;
    low = t.price;
    close = t.price;
    volume = t.quantity;
  }

  abbrev pub widened : Trade P → Candle P → Candle P
  widened t c = record c {
    high = max_price c.high t.price;
    low = min_price c.low t.price;
    close = t.price;
    volume = c.volume + t.quantity;
  }

  -- A trade in the window of the newest candle widens it, and any other opens a candle.
  unfoldable pub add_to_candles : TimePoint → Trade P → List (Candle P) → List (Candle P)
  add_to_candles start t [] = first_candle start t ∷ []
  add_to_candles start t (c ∷ candles) =
      if same_ℤ c.bucket_start start
      then widened t c ∷ candles
      else first_candle start t ∷ c ∷ candles

  unfoldable pub trade_state : ℕ → Trade P → SymbolState P → SymbolState P
  trade_state size t s = record {
    last_price = t.price;
    total_volume = s.total_volume + t.quantity;
    cumulative_notional = d.add s.cumulative_notional (d.mul (d.of_ℤ (pos t.quantity)) t.price);
    candles = add_to_candles (bucket_start_of size t.timestamp) t s.candles;
  }

  unfoldable pub on_trade : Trade P → MarketData P → MarketData P
  on_trade t m = record m {
    state =
        insert t.symbol (trade_state m.bucket_size t (get_or t.symbol empty_state m.state)) m.state;
  }

  unfoldable pub on_event : Event P → MarketData P → MarketData P
  on_event (Event.trade_event t) m = on_trade t m
  on_event (Event.order_rejected_event id c r) m = m
  on_event (Event.order_accepted_event id c s) m = m
  on_event (Event.order_queued_event id c s) m = m
  on_event (Event.order_expired_event id c s) m = m

  unfoldable pub market_last_price : Symbol → MarketData P → P
  market_last_price s m = elim (lookup s m.state) [ none ↦ d.ratio 0 1 | some x ↦ x.last_price ]

  abbrev pub total_volume_in : Option (SymbolState P) → ℕ
  total_volume_in none = 0
  total_volume_in (some x) = x.total_volume

  unfoldable pub market_total_volume : Symbol → MarketData P → ℕ
  market_total_volume s m = total_volume_in (lookup s m.state)

  -- Volume-weighted average price.
  unfoldable pub vwap : Symbol → MarketData P → P
  vwap s m = elim (lookup s m.state) [
    | none ↦ d.ratio 0 1
    | some x ↦
        if eqb x.total_volume 0
        then d.ratio 0 1
        else d.div x.cumulative_notional (d.of_ℤ (pos x.total_volume))
  ]

  -- The last `n` elements of the vector, in its order: the oldest first.
  unfoldable pub recent_candles : Symbol → ℕ → MarketData P → List (Candle P)
  recent_candles s n m = elim (lookup s m.state) [ none ↦ [] | some x ↦ reverse (take n x.candles) ]
