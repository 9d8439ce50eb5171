-- ===== src/Portfolio.antt =====
-- Src_Simulation/include/portfolio.hpp: a client's cash and holdings. Holdings are unbounded
-- integers here; that a count of shares stays inside 64 bits is not modelled.
use stock_market_trading_sim.Common.{Option, none, some, [], ◌∷◌}
use stock_market_trading_sim.Common.Int.{ℤ, pos, ◌+ℤ◌, ◌-ℤ◌}
use stock_market_trading_sim.Common.Keys.{symbol_key}
use stock_market_trading_sim.Common.Maps.{Map, lookup, insert, get_or}
use stock_market_trading_sim.Double.{Double}
use stock_market_trading_sim.Types.{Symbol}

pub record Portfolio (P : Type 0) : Type 0 where
  pub cash : P
  pub holdings : Map Symbol ℤ

module _ {P : Type 0} where
  -- `holding`: no entry is no share.
  unfoldable pub holding : Symbol → Portfolio P → ℤ
  holding s p = get_or s (pos 0) p.holdings

  -- `holdings[symbol] += quantity`
  unfoldable pub add_holding : Symbol → ℤ → Portfolio P → Portfolio P
  add_holding s n p = record p { holdings = insert s (get_or s (pos 0) p.holdings +ℤ n) p.holdings }

  -- `holdings[symbol] -= quantity`
  unfoldable pub sub_holding : Symbol → ℤ → Portfolio P → Portfolio P
  sub_holding s n p = record p { holdings = insert s (get_or s (pos 0) p.holdings -ℤ n) p.holdings }

module _ {P : Type 0} ⦃d : Double P⦄ where
  -- `Portfolio{}`
  abbrev pub no_portfolio : Portfolio P
  no_portfolio = record { cash = d.ratio 0 1; holdings = [] }

  abbrev pub add_value : Option P → ℤ → P → P
  add_value none n total = total
  add_value (some price) n total = d.add total (d.mul (d.of_ℤ n) price)

  -- The loop of `net_worth`; a symbol without a price counts for nothing.
  unfoldable pub worth : Map Symbol P → P → Map Symbol ℤ → P
  worth prices total [] = total
  worth prices total ((s, n) ∷ holdings) =
      worth prices (add_value (lookup s prices) n total) holdings

  unfoldable pub net_worth : Map Symbol P → Portfolio P → P
  net_worth prices p = worth prices p.cash p.holdings
