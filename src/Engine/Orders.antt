-- ===== src/Engine/Orders.antt =====
-- `passes_risk_check` and `build_order` of Src_Simulation/src/matching_engine.cpp.
use stock_market_trading_sim.Common.{◌^◌, Bool, false, Option, none, some, value_or}
use stock_market_trading_sim.Common.Int.{ℤ, pos, ◌+ℤ◌, ◌*ℤ◌, leb_ℤ, pos_part}
use stock_market_trading_sim.Common.Keys.{id_key}
use stock_market_trading_sim.Common.Maps.{lookup}
use stock_market_trading_sim.Double.{Double}
use stock_market_trading_sim.Types.{
  OrderId, ClientId, Symbol, TimePoint, Side, OrderKind, Order, OrderRequest,
}
use stock_market_trading_sim.Portfolio.{Portfolio, holding}
use stock_market_trading_sim.Engine.{MatchingEngine, last_price}

-- A duration in seconds, in ticks of the clock.
abbrev pub seconds : ℤ → ℤ
seconds n = n *ℤ pos (10 ^ 9)

-- `now + *duration`, where there is a duration.
abbrev pub deadline : TimePoint → Option ℤ → Option TimePoint
deadline now none = none
deadline now (some n) = some (now +ℤ seconds n)

module _ {P : Type 0} ⦃d : Double P⦄ where
  -- The price that a purchase is reckoned with: the limit, or for a market order the last price and a
  -- tenth (`kMarketOrderCashSafetyFactor`).
  abbrev pub reference_price : OrderKind → Symbol → P → MatchingEngine P → P
  reference_price OrderKind.market symbol price e = d.mul (last_price symbol e) (d.ratio 110 100)
  reference_price _ symbol price e = price

  abbrev pub can_trade : Side → OrderKind → Symbol → ℤ → P → MatchingEngine P → Portfolio P → Bool
  can_trade Side.sell kind symbol quantity price e p = leb_ℤ quantity (holding symbol p)
  can_trade Side.buy kind symbol quantity price e p =
      d.le (d.mul (d.of_ℤ quantity) (reference_price kind symbol price e)) p.cash

  unfoldable pub passes_risk_check :
      ClientId → Side → OrderKind → Symbol → ℤ → P → MatchingEngine P → Bool
  passes_risk_check client side kind symbol quantity price e = elim (lookup client e.portfolios) [
    | none ↦ false
    | some p ↦ can_trade side kind symbol quantity price e p
  ]

  -- The release band of a request, lower end and upper end.
  abbrev pub stop_band : Side → P → P × P
  stop_band Side.buy trigger = (trigger, d.pos_inf)
  stop_band Side.sell trigger = (d.neg_inf, trigger)

  abbrev pub release_band : OrderKind → OrderRequest P → P × P
  release_band OrderKind.stop r = stop_band r.side (value_or r.trigger_upper r.price)
  release_band _ r = (value_or r.trigger_lower d.neg_inf, value_or r.trigger_upper d.pos_inf)

  -- Called with a positive quantity only.
  unfoldable pub build_order : OrderRequest P → OrderId → TimePoint → Order P
  build_order r id now = record {
    id = id;
    client = r.client;
    side = r.side;
    kind = r.kind;
    symbol = r.symbol;
    quantity = pos_part r.quantity;
    price = r.price;
    release_lower = (release_band r.kind r).0;
    release_upper = (release_band r.kind r).1;
    submitted_at = now;
    not_before = deadline now r.not_before_in;
    expires_at = deadline now r.expires_in;
  }
