-- ===== src/Persistence.antt =====
-- Src_Simulation/src/net/persistence.cpp: the values that `save` writes, and what `load` does with the
-- values that it has read. The text of the file, its writing and its reading are left out.
pub mod Accounts
pub mod Balances
pub mod Prices
pub mod Grants
pub mod Restart
use stock_market_trading_sim.Common.{List, [], ◌∷◌, ◌++◌, if◌then◌else◌}
use stock_market_trading_sim.Common.Int.{ℤ, pos, same_ℤ}
use stock_market_trading_sim.Common.Keys.{symbol_key, id_key}
use stock_market_trading_sim.Common.Maps.{Map, inserts}
use stock_market_trading_sim.Double.{Double}
use stock_market_trading_sim.Types.{ClientId, Symbol}
use stock_market_trading_sim.Portfolio.{Portfolio}
use stock_market_trading_sim.Auth.{AccountRecord, ClientDirectory, import_account}
use stock_market_trading_sim.Engine.{
  MatchingEngine, ensure_client, grant_initial_holdings, register_symbol,
}

-- The loop over the ACCOUNT lines.
unfoldable pub restore_accounts : List AccountRecord → ClientDirectory → ClientDirectory
restore_accounts [] d = d
restore_accounts (r ∷ rs) d = restore_accounts rs (import_account r d)

pub record PendingHolding : Type 0 where
  pub client_id : ClientId
  pub symbol : Symbol
  pub quantity : ℤ

-- The values of the CASH, HOLDING and PRICE lines that the first pass of `load` has read.
pub record Pending (P : Type 0) : Type 0 where
  pub pending_cash : Map ClientId P
  pub pending_holdings : List PendingHolding
  pub pending_prices : Map Symbol P

-- The values of the HOLDING lines of a portfolio; a holding of no share has none.
abbrev pub pending_of : ClientId → Map Symbol ℤ → List PendingHolding
pending_of c [] = []
pending_of c ((s, n) ∷ hs) =
    let later = pending_of c hs in
    if same_ℤ n (pos 0) then later else record { client_id = c; symbol = s; quantity = n } ∷ later

module _ {P : Type 0} where
  -- The values of the CASH lines.
  abbrev pub cash_of : Map ClientId (Portfolio P) → Map ClientId P
  cash_of [] = []
  cash_of ((c, p) ∷ m) = (c, p.cash) ∷ cash_of m

  abbrev pub all_pending : Map ClientId (Portfolio P) → List PendingHolding
  all_pending [] = []
  all_pending ((c, p) ∷ m) = pending_of c p.holdings ++ all_pending m

  -- The values that `save` writes, of which `load` keeps the last with a key.
  unfoldable pub saved_values : MatchingEngine P → Pending P
  saved_values e = record {
    pending_cash = inserts (cash_of e.portfolios) [];
    pending_holdings = all_pending e.portfolios;
    pending_prices = inserts e.last_prices [];
  }

  unfoldable pub restore_cash : Map ClientId P → MatchingEngine P → MatchingEngine P
  restore_cash [] e = e
  restore_cash ((client, cash) ∷ entries) e = restore_cash entries (ensure_client client cash e)

  unfoldable pub restore_prices : Map Symbol P → MatchingEngine P → MatchingEngine P
  restore_prices [] e = e
  restore_prices ((s, price) ∷ entries) e = restore_prices entries (register_symbol s price e)

module _ {P : Type 0} ⦃d : Double P⦄ where
  -- `ensure_client(client, 0.0)` and the grant.
  abbrev pub restore_holding : PendingHolding → MatchingEngine P → MatchingEngine P
  restore_holding h e =
      grant_initial_holdings h.client_id h.symbol h.quantity
        (ensure_client h.client_id (d.ratio 0 1) e)

  unfoldable pub restore_holdings : List PendingHolding → MatchingEngine P → MatchingEngine P
  restore_holdings [] e = e
  restore_holdings (h ∷ hs) e = restore_holdings hs (restore_holding h e)

  -- The second pass of `load`.
  abbrev pub restore_engine : Pending P → MatchingEngine P → MatchingEngine P
  restore_engine p e =
      restore_prices p.pending_prices
        (restore_holdings p.pending_holdings (restore_cash p.pending_cash e))
