-- ===== src/Bots/MarketMaker.antt =====
-- `MarketMakerBot` of Src_Simulation/include/bot.hpp and src/bot.cpp. An order id of 0 is no order.
use stock_market_trading_sim.Common.{ℕ, ◌&&◌, Option, none, some, ltb, eqb, if◌then◌else◌}
use stock_market_trading_sim.Double.{Double}
use stock_market_trading_sim.Types.{OrderId, Symbol, Side, OrderKind, SubmitResult}
use stock_market_trading_sim.MarketData.{MarketData, max_price}
use stock_market_trading_sim.Engine.{MatchingEngine, Readings}
use stock_market_trading_sim.Engine.Submit.{submit_order}
use stock_market_trading_sim.Engine.Release.{cancel_order}
use stock_market_trading_sim.Bots.{
  Random, Trader, pick_symbol, cent, reference_price, plain_request,
}

pub record Quotes : Type 0 where
  pub last_quote_symbol : Symbol
  pub last_buy_order : OrderId
  pub last_sell_order : OrderId

-- The id of a submission of which something is left, else 0.
unfoldable pub remembered : {P : Type 0} → ℕ → SubmitResult P → OrderId
remembered quantity result =
    if result.accepted && ltb result.filled_quantity quantity then result.order_id else 0

abbrev pub Made : Type 0 → Type 0 → Type 0
Made G P = Option (G × Quotes × MatchingEngine P)

module _ {P : Type 0} ⦃d : Double P⦄ where
  -- `if (id != 0) engine_.cancel_order(symbol, id)`
  unfoldable pub withdraw : Symbol → OrderId → MatchingEngine P → MatchingEngine P
  withdraw symbol id e = if eqb id 0 then e else (cancel_order symbol id e).1

  unfoldable pub withdraw_quotes : Quotes → MatchingEngine P → MatchingEngine P
  withdraw_quotes q e =
      withdraw q.last_quote_symbol q.last_sell_order
        (withdraw q.last_quote_symbol q.last_buy_order e)

module _ {G P : Type 0} ⦃d : Double P⦄ where
  -- The end of `MarketMakerBot::step`: the result of the sell order.
  abbrev pub sold : ℕ → Symbol → OrderId → G → Option (SubmitResult P × MatchingEngine P) → Made G P
  sold quantity symbol buy g none = none
  sold quantity symbol buy g (some (result, e)) = some (
    g,
    record {
      last_quote_symbol = symbol;
      last_buy_order = buy;
      last_sell_order = remembered quantity result;
    },
    e,
  )

  -- What follows the buy order: its result, and the sell order.
  unfoldable pub quote_sell :
      Random G P
      → Trader P
      → Readings
      → Symbol
      → P
      → ℕ
      → G
      → Option (SubmitResult P × MatchingEngine P)
      → Made G P
  quote_sell random bot clock symbol ask quantity g none = none
  quote_sell random bot clock symbol ask quantity g (some (result, e)) =
      let (amount, g') = random.uniform_int 5 20 g in
      let request = plain_request bot.client Side.sell OrderKind.limit symbol amount ask in
      sold amount symbol (remembered quantity result) g' (submit_order clock request e)

  -- The two quotes around a reference price.
  unfoldable pub quote_both :
      Random G P → Trader P → Readings → Readings → P → Symbol → P → G → MatchingEngine P → Made G P
  quote_both random bot clock later spread_fraction symbol mid g e =
      let half_spread = d.div (d.mul mid spread_fraction) (d.ratio 2 1) in
      let bid = max_price cent (d.sub mid half_spread) in
      let (amount, g') = random.uniform_int 5 20 g in
      let request = plain_request bot.client Side.buy OrderKind.limit symbol amount bid in
      quote_sell random bot later symbol (d.add mid half_spread) amount g'
        (submit_order clock request e)

  -- `MarketMakerBot::step` from the pick on, the old quotes being withdrawn.
  unfoldable pub make_market :
      Random G P
      → Trader P
      → Readings
      → Readings
      → MarketData P
      → P
      → Option Symbol
      → G
      → MatchingEngine P
      → Made G P
  make_market random bot clock later market spread_fraction none g e = none
  make_market random bot clock later market spread_fraction (some symbol) g e =
      let mid = reference_price symbol e market in
      let quoted = quote_both random bot clock later spread_fraction symbol mid g e in
      if d.le mid (d.ratio 0 1)
      then some
          (g, record { last_quote_symbol = symbol; last_buy_order = 0; last_sell_order = 0 }, e)
      else quoted

  unfoldable pub maker_step :
      Random G P
      → Trader P
      → Readings
      → Readings
      → MarketData P
      → P
      → Quotes
      → G
      → MatchingEngine P
      → Made G P
  maker_step random bot clock later market spread_fraction q g e =
      let (symbol, g') = pick_symbol random bot g in
      make_market random bot clock later market spread_fraction symbol g' (withdraw_quotes q e)
