-- ===== src/Tests/Watches.antt =====
-- A round of the watcher on a waiting bid.
use stock_market_trading_sim.Common.{◌≡◌, refl, true, some, [], ◌∷◌, arith}
use stock_market_trading_sim.Common.Maps.{lookup, get_or}
use stock_market_trading_sim.Double.Cents.{Cents, cents_double, Cents-IsOrdered}
use stock_market_trading_sim.Sql.Database.{OrderStatus}
use stock_market_trading_sim.Sql.Market.{Session, Market}
use stock_market_trading_sim.Sql.Watcher.{get_waiting_orders, watcher_pass}
use stock_market_trading_sim.Sql.Supply.{IsSupply}
use stock_market_trading_sim.Sql.Invariant.{IsMarket}
use stock_market_trading_sim.Sql.Reach.{opened, at_opening, Reaches-IsMarket}
use stock_market_trading_sim.Sql.Passes.{watcher_pass-IsMarket}
use stock_market_trading_sim.Tests.Markets.{exchange_floor, bid, tables, session}

-- The bid waits for a price up to 65535, and never expires.
abbrev with_waiting : Session Cents
with_waiting = record session {
  database = record tables {
    orders = (104, record bid { order_status = OrderStatus.waiting }) ∷ [];
  };
}

with_waiting-IsSupply : IsSupply exchange_floor with_waiting
unfolding lookup
with_waiting-IsSupply = record {
  injective = λ i j k l h. omega (arith, k, l, h);
  unused = λ n h k. ground (arith, k);
  unsaid = λ n h k. refl;
}

watcher_pass-IsMarket_example :
    (later : Market Cents) × (watcher_pass exchange_floor true 5
        (opened exchange_floor with_waiting)
      ≡ some later)
    × IsMarket exchange_floor later
unfolding lookup get_waiting_orders get_or
watcher_pass-IsMarket_example =
    watcher_pass-IsMarket exchange_floor Cents-IsOrdered true 5 (opened exchange_floor with_waiting)
      (λ price. refl) (refl, tt)
      (Reaches-IsMarket exchange_floor Cents-IsOrdered with_waiting
        (opened exchange_floor with_waiting) with_waiting-IsSupply at_opening)
      (omega arith)
