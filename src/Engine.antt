-- ===== src/Engine.antt =====
-- Src_Simulation/include/matching_engine.hpp and src/matching_engine.cpp: the state of the engine
-- and the operations on its parts. The functions of `MatchingEngine` take the state and return it;
-- a call is modelled as it runs alone. `events` is what has been published, oldest first.
pub mod Orders
pub mod Matching
pub mod Submit
pub mod Release
pub mod Holdings
pub mod Frames
pub mod Books
pub mod Reach
pub mod Uniqueness
use stock_market_trading_sim.Common.{
  ℕ, ◌+◌, ◌%◌, ◌^◌, Bool, true, false, Option, none, some, List, [], ◌∷◌, ◌++◌, is_some,
  if◌then◌else◌,
}
use stock_market_trading_sim.Common.Int.{ℤ, pos}
use stock_market_trading_sim.Common.Keys.{◌==◌, id_key, symbol_key}
use stock_market_trading_sim.Common.Maps.{Map, lookup, insert, emplace, get_or}
use stock_market_trading_sim.Double.{Double}
use stock_market_trading_sim.Types.{OrderId, ClientId, Symbol, TimePoint, Order, Trade}
use stock_market_trading_sim.OrderBook.{OrderBook, new_book}
use stock_market_trading_sim.Registry.{OrderRegistry, empty_registry}
use stock_market_trading_sim.Metrics.{MetricsRegistry, reset}
use stock_market_trading_sim.Portfolio.{Portfolio, no_portfolio, holding, add_holding, sub_holding}
use stock_market_trading_sim.Notification.{Event}

-- What a call reads from the clock: the time of its beginning, the time of the k-th trade of an order,
-- and how long the matching of an order took, in microseconds.
pub record Readings : Type 0 where
  pub now : TimePoint
  pub stamp : OrderId → ℕ → TimePoint
  pub elapsed : OrderId → ℕ

pub record MatchingEngine (P : Type 0) : Type 0 where
  pub books : Map Symbol (OrderBook P)
  pub last_prices : Map Symbol P
  pub portfolios : Map ClientId (Portfolio P)
  pub registry : OrderRegistry P
  pub dirty_symbols : List Symbol
  pub next_order_id : OrderId
  pub metrics : MetricsRegistry
  pub events : List (Event P)

-- Membership in the unordered set of the symbols to scan.
abbrev pub mem_symbol : Symbol → List Symbol → Bool
mem_symbol s [] = false
mem_symbol s (x ∷ xs) = if x == s then true else mem_symbol s xs

module _ {P : Type 0} where
  abbrev pub publish : Event P → MatchingEngine P → MatchingEngine P
  publish event e = record e { events = e.events ++ (event ∷ []) }

  abbrev pub count : (MetricsRegistry → MetricsRegistry) → MatchingEngine P → MatchingEngine P
  count f e = record e { metrics = f e.metrics }

  unfoldable pub register_symbol : Symbol → P → MatchingEngine P → MatchingEngine P
  register_symbol symbol price e = record e {
    books = emplace symbol (new_book symbol) e.books;
    last_prices = insert symbol price e.last_prices;
  }

  unfoldable pub ensure_client : ClientId → P → MatchingEngine P → MatchingEngine P
  ensure_client client cash e = record e {
    portfolios = emplace client (record { cash = cash; holdings = [] }) e.portfolios;
  }

  abbrev pub symbol_exists : Symbol → MatchingEngine P → Bool
  symbol_exists symbol e = is_some (lookup symbol e.books)

  unfoldable pub symbols_of : Map Symbol (OrderBook P) → List Symbol
  symbols_of [] = []
  symbols_of ((symbol, book) ∷ books) = symbol ∷ symbols_of books

  abbrev pub symbols : MatchingEngine P → List Symbol
  symbols e = symbols_of e.books

  unfoldable pub mark_dirty : Symbol → MatchingEngine P → MatchingEngine P
  mark_dirty s e = record e {
    dirty_symbols = if mem_symbol s e.dirty_symbols then e.dirty_symbols else s ∷ e.dirty_symbols;
  }

  unfoldable pub drain_dirty_symbols : MatchingEngine P → List Symbol × MatchingEngine P
  drain_dirty_symbols e = (e.dirty_symbols, record e { dirty_symbols = [] })

module _ {P : Type 0} ⦃d : Double P⦄ where
  unfoldable pub new_engine : MatchingEngine P
  unfolding empty_registry reset
  new_engine = record {
    books = [];
    last_prices = [];
    portfolios = [];
    registry = empty_registry;
    dirty_symbols = [];
    next_order_id = 1;
    metrics = reset;
    events = [];
  }

  unfoldable pub last_price : Symbol → MatchingEngine P → P
  last_price symbol e = get_or symbol (d.ratio 0 1) e.last_prices

  unfoldable pub portfolio_snapshot : ClientId → MatchingEngine P → Portfolio P
  portfolio_snapshot client e = get_or client no_portfolio e.portfolios

  unfoldable pub grant_initial_holdings :
      ClientId → Symbol → ℤ → MatchingEngine P → MatchingEngine P
  grant_initial_holdings client symbol n e = record e {
    portfolios =
        insert client (add_holding symbol n (get_or client no_portfolio e.portfolios)) e.portfolios;
  }

  -- `settle`, on the portfolios: first the buyer's entry, then the seller's, which may be the same.
  unfoldable pub settle_portfolios :
      Trade P → Map ClientId (Portfolio P) → Map ClientId (Portfolio P)
  settle_portfolios t m =
      let notional = d.mul (d.of_ℤ (pos t.quantity)) t.price in
      let buyer = get_or t.buyer no_portfolio m in
      let paid = record buyer { cash = d.sub buyer.cash notional } in
      let m' = insert t.buyer (add_holding t.symbol (pos t.quantity) paid) m in
      let seller = get_or t.seller no_portfolio m' in
      let earned = record seller { cash = d.add seller.cash notional } in
      insert t.seller (sub_holding t.symbol (pos t.quantity) earned) m'

  unfoldable pub settle : Trade P → MatchingEngine P → MatchingEngine P
  settle t e = record e { portfolios = settle_portfolios t e.portfolios }
