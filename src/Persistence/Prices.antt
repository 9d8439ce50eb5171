-- ===== src/Persistence/Prices.antt =====
-- The prices that come back, and their symbols (Src_Simulation/src/net/persistence.cpp).
use stock_market_trading_sim.Common.{◌≡◌, refl, ◌∙◌, List, ◌||◌, [], ◌∷◌, arith, is_some}
use stock_market_trading_sim.Common.Keys.{symbol_key, id_key}
use stock_market_trading_sim.Common.Maps.{Map, lookup, lookup-emplace, inserts}
use stock_market_trading_sim.Types.{ClientId, Symbol}
use stock_market_trading_sim.Double.{Double}
use stock_market_trading_sim.OrderBook.{new_book}
use stock_market_trading_sim.Engine.{
  MatchingEngine, register_symbol, symbol_exists, ensure_client, grant_initial_holdings,
}
use stock_market_trading_sim.Persistence.{
  PendingHolding, restore_cash, restore_holding, restore_holdings, restore_prices,
}

module _ {P : Type 0} where
  pub restore_prices-last_prices :
      (prices : Map Symbol P) (e : MatchingEngine P)
      → (restore_prices prices e).last_prices ≡ inserts prices e.last_prices
  unfolding restore_prices inserts register_symbol
  restore_prices-last_prices [] e = refl
  restore_prices-last_prices ((s, price) ∷ prices) e =
      restore_prices-last_prices prices (register_symbol s price e)

  pub restore_prices-portfolios :
      (prices : Map Symbol P) (e : MatchingEngine P)
      → (restore_prices prices e).portfolios ≡ e.portfolios
  unfolding restore_prices register_symbol
  restore_prices-portfolios [] e = refl
  restore_prices-portfolios ((s, price) ∷ prices) e =
      restore_prices-portfolios prices (register_symbol s price e)

  pub restore_prices-symbols :
      (s : Symbol) (prices : Map Symbol P) (e : MatchingEngine P)
      → symbol_exists s (restore_prices prices e) ≡ (is_some (lookup s prices) || symbol_exists s e)
  unfolding restore_prices register_symbol lookup
  restore_prices-symbols s [] e = refl
  restore_prices-symbols s ((own, price) ∷ prices) e =
      restore_prices-symbols s prices (register_symbol own price e)
      ∙ ground (arith, lookup-emplace own s (new_book own) e.books, symbol_key.same_iff own s)

  -- The CASH and HOLDING lines leave prices and books alone.
  pub restore_cash-prices :
      (entries : Map ClientId P) (e : MatchingEngine P)
      → ((restore_cash entries e).last_prices ≡ e.last_prices)
        × ((restore_cash entries e).books ≡ e.books)
  unfolding restore_cash ensure_client
  restore_cash-prices [] e = (refl, refl)
  restore_cash-prices ((c, cash) ∷ entries) e = restore_cash-prices entries (ensure_client c cash e)

  pub restore_holdings-prices :
      ⦃d : Double P⦄ (hs : List PendingHolding) (e : MatchingEngine P)
      → ((restore_holdings hs e).last_prices ≡ e.last_prices)
        × ((restore_holdings hs e).books ≡ e.books)
  unfolding restore_holdings ensure_client grant_initial_holdings
  restore_holdings-prices [] e = (refl, refl)
  restore_holdings-prices (h ∷ hs) e = restore_holdings-prices hs (restore_holding h e)
