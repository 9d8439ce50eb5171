-- ===== src/Tests/Samples.antt =====
-- Orders, a book and readings of the clock for the tests.
use stock_market_trading_sim.Common.{ℕ, none, [], ◌∷◌}
use stock_market_trading_sim.Common.Int.{ℤ, pos}
use stock_market_trading_sim.Double.Cents.{Cents, num, low, high}
use stock_market_trading_sim.Types.{Side, OrderKind, Order, OrderRequest, TimePoint}
use stock_market_trading_sim.OrderBook.{OrderBook}
use stock_market_trading_sim.Engine.{Readings}

abbrev pub order_at : ℕ → ℕ → Side → OrderKind → ℕ → ℕ → Order Cents
order_at id client side kind quantity price = record {
  id = id;
  client = client;
  side = side;
  kind = kind;
  symbol = "ACME";
  quantity = quantity;
  price = num (pos price);
  release_lower = low;
  release_upper = high;
  submitted_at = pos 0;
  not_before = none;
  expires_at = none;
}

abbrev pub stamps : ℕ → TimePoint
stamps k = pos k

-- Two asks at 100, one at 105, and a bid at 90.
abbrev pub book : OrderBook Cents
book = record {
  symbol = "ACME";
  bids = (num (pos 90), order_at 4 7 Side.buy OrderKind.limit 8 90 ∷ []) ∷ [];
  asks =
      (
        num (pos 100),
        order_at 1 5 Side.sell OrderKind.limit 3 100
            ∷ order_at 2 6 Side.sell OrderKind.limit 4 100
            ∷ [],
      )
      ∷ (num (pos 105), order_at 3 5 Side.sell OrderKind.limit 10 105 ∷ [])
      ∷ [];
}

-- Buys five and a half levels deep, up to 104.
abbrev pub taking : Order Cents
taking = order_at 9 8 Side.buy OrderKind.limit 9 104

abbrev pub clock : Readings
clock = record { now = pos 1000; stamp = λ id k. pos k; elapsed = λ id. 25 }

abbrev pub request : ℕ → Side → OrderKind → ℤ → ℕ → OrderRequest Cents
request client side kind quantity price = record {
  client = client;
  side = side;
  kind = kind;
  symbol = "ACME";
  quantity = quantity;
  price = num (pos price);
  trigger_lower = none;
  trigger_upper = none;
  expires_in = none;
  not_before_in = none;
}
