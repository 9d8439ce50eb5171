-- ===== src/Engine/Release.antt =====
-- `try_release_waiting_orders` and the cancellations of Src_Simulation/src/matching_engine.cpp.
use stock_market_trading_sim.Common.{ℕ, Bool, true, false, Option, none, some, List, [], ◌∷◌, ◌++◌}
use stock_market_trading_sim.Common.Keys.{symbol_key}
use stock_market_trading_sim.Common.Maps.{lookup, insert}
use stock_market_trading_sim.Double.{Double}
use stock_market_trading_sim.Types.{OrderId, Symbol, TimePoint, Side, Order, SubmitResult}
use stock_market_trading_sim.OrderBook.{OrderBook}
use stock_market_trading_sim.OrderBook.Cancel.{cancel, cancel_on_side}
use stock_market_trading_sim.OrderBook.Views.{BookSnapshot, snapshot, resting_orders}
use stock_market_trading_sim.Metrics.{order_expired}
use stock_market_trading_sim.Notification.{Event}
use stock_market_trading_sim.Registry.{
  OrderRegistry, ScanResult, no_results, scan_and_release, scan_and_release_symbol,
}
use stock_market_trading_sim.Registry
use stock_market_trading_sim.Engine.{
  MatchingEngine, Readings, publish, count, last_price, drain_dirty_symbols,
}
use stock_market_trading_sim.Engine.Matching.{match_and_settle}

pub record ReleaseSummary (P : Type 0) : Type 0 where
  pub released : List (SubmitResult P)
  pub expired : List (Order P)

module _ {P : Type 0} ⦃d : Double P⦄ where
  -- The loop over the drained symbols.
  unfoldable pub scan_each :
      List Symbol
      → TimePoint
      → (Symbol → P)
      → ScanResult P
      → OrderRegistry P
      → ScanResult P × OrderRegistry P
  scan_each [] now price result r = (result, r)
  scan_each (s ∷ symbols) now price result r =
      let (partial, r') = scan_and_release_symbol s now price r in
      scan_each symbols now price
        (record {
          released = result.released ++ partial.released;
          expired = result.expired ++ partial.expired;
        })
        r'

  unfoldable pub scan_waiting : Readings → Bool → MatchingEngine P → ScanResult P × MatchingEngine P
  scan_waiting clock true e =
      let (scan, r) = scan_and_release clock.now (λ s. last_price s e) e.registry in
      (scan, record e { registry = r })
  scan_waiting clock false e =
      let (symbols, drained) = drain_dirty_symbols e in
      let (scan, r) =
        scan_each symbols clock.now (λ s. last_price s drained) no_results drained.registry in
      (scan, record drained { registry = r })

  abbrev pub with_result :
      SubmitResult P
      → Option (List (SubmitResult P) × MatchingEngine P)
      → Option (List (SubmitResult P) × MatchingEngine P)
  with_result r none = none
  with_result r (some (rs, e)) = some (r ∷ rs, e)

  -- The loop over the released orders; an exception ends it.
  unfoldable pub match_released :
      Readings
      → List (Order P)
      → MatchingEngine P
      → Option (List (SubmitResult P) × MatchingEngine P)
  match_released clock [] e = some ([], e)
  match_released clock (o ∷ os) e = elim (match_and_settle clock o e) [
    | none ↦ none
    | some (r, e') ↦ with_result r (match_released clock os e')
  ]

  -- The loop over the expired orders.
  unfoldable pub report_expired : List (Order P) → MatchingEngine P → MatchingEngine P
  report_expired [] e = e
  report_expired (o ∷ os) e =
      report_expired os
        (publish (Event.order_expired_event o.id o.client o.symbol) (count order_expired e))

  unfoldable pub try_release_waiting_orders :
      Readings → Bool → MatchingEngine P → Option (ReleaseSummary P × MatchingEngine P)
  try_release_waiting_orders clock full_scan e =
      let (scan, scanned) = scan_waiting clock full_scan e in
      elim (match_released clock scan.released scanned) [
        | none ↦ none
        | some (results, matched) ↦ some (
          record { released = results; expired = scan.expired },
          report_expired scan.expired matched,
        )
      ]

  abbrev pub with_book : Symbol → MatchingEngine P → Bool × OrderBook P → Bool × MatchingEngine P
  with_book symbol e (done, book) = (done, record e { books = insert symbol book e.books })

  -- `cancel_order(symbol, side, price, id)`
  unfoldable pub cancel_order_at :
      Symbol → Side → P → OrderId → MatchingEngine P → Bool × MatchingEngine P
  cancel_order_at symbol side price id e = elim (lookup symbol e.books) [
    | none ↦ (false, e)
    | some book ↦ with_book symbol e (cancel_on_side side price id book)
  ]

  -- `cancel_order(symbol, id)`
  unfoldable pub cancel_order : Symbol → OrderId → MatchingEngine P → Bool × MatchingEngine P
  cancel_order symbol id e = elim (lookup symbol e.books) [
    | none ↦ (false, e)
    | some book ↦ with_book symbol e (cancel id book)
  ]

  unfoldable pub cancel_waiting_order : OrderId → MatchingEngine P → Bool × MatchingEngine P
  cancel_waiting_order id e =
      let (done, r) = Registry.cancel id e.registry in (done, record e { registry = r })

  unfoldable pub engine_snapshot : Symbol → ℕ → MatchingEngine P → BookSnapshot P
  engine_snapshot symbol depth e = elim (lookup symbol e.books) [
    | none ↦ record { bids = []; asks = [] }
    | some book ↦ snapshot depth book
  ]

  unfoldable pub engine_resting_orders : Symbol → MatchingEngine P → List (Order P)
  engine_resting_orders symbol e = elim (lookup symbol e.books) [
    | none ↦ []
    | some book ↦ resting_orders book
  ]
